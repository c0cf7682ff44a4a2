-- ===== src/Phase/Decode/Rows.antt =====
-- What the workers of phase 3 in redcli/main.cpp leave behind with the check on, row by row.
use encoder_rle4k_cpu.Base.{
  ℕ, suc, ◌≤◌, ◌<◌, ◌≡◌, ◌≢◌, refl, sym, ◌∙◌, true, false, List, Option, some, none, arith,
  get_elem?, set, length, length-set, get_elem?-set_self, get_elem?-set_ne, get_elem?-replicate,
  get_elem?-some, length-replicate, run_from, ℕ_discrete, if◌then◌else◌,
}
use encoder_rle4k_cpu.Base.Int.{ℤ}
use encoder_rle4k_cpu.Bitmap.{Bitmap, contents}
use encoder_rle4k_cpu.Libraries.{Libraries, Verdict}
use encoder_rle4k_cpu.Digest.{Digest}
use encoder_rle4k_cpu.Phase.Slots.{run_from_total}
use encoder_rle4k_cpu.Phase.Decode.{
  Decoded, decode_block_of, decode_row, decode_write, decode_body, decode_start,
}

-- The row's slots: untouched where the row was skipped, otherwise the mark and the buffer of its decode.
abbrev pub RowMarks : Decoded → ℕ → Option Verdict → Type 0
RowMarks s i none = get_elem? s.decoded_ok i ≡ some false
RowMarks s i (some v) =
    (get_elem? s.decoded_ok i ≡ some v.done) × (get_elem? s.check_bufs i ≡ some (contents v.buffer))

module _ (lib : Libraries) (fmt : ℤ) (digests : List Digest)
    (enc_cache : List (Option Bitmap)) where
  abbrev row : ℕ → Option (Option Verdict)
  row = decode_row lib fmt digests enc_cache

  abbrev write : ℕ → Option Verdict → Decoded → Decoded
  write = decode_write true

  -- Every decode among the first `k` rows succeeded.
  abbrev pub AllDone : ℕ → Type 0
  AllDone k = (i : ℕ) → i < k → (v : Verdict) → row i ≡ some (some v) → v.done ≡ true

  pub record Progress (k : ℕ) (s : Decoded) : Type 0 where
    pub buf_slots : length s.check_bufs ≡ length digests
    pub ok_slots : length s.decoded_ok ≡ length digests
    pub rows : (i : ℕ) → i < k → (out : Option Verdict) × (row i ≡ some out) × RowMarks s i out
    pub rest : (i : ℕ) → k ≤ i → i < length digests → get_elem? s.decoded_ok i ≡ some false
    pub sound : s.ok ≡ true → AllDone k
    pub complete : AllDone k → s.ok ≡ true

  -- The parts of the state after a decode, each by itself.
  write_parts :
      (k : ℕ) (v : Verdict) (s : Decoded)
      → ((write k (some v) s).check_bufs ≡ set s.check_bufs k (contents v.buffer))
        × ((write k (some v) s).decoded_ok
            ≡ (if v.done then set s.decoded_ok k true else s.decoded_ok))
        × ((write k (some v) s).ok ≡ (if v.done then s.ok else false))
  write_parts k v s = ground arith

  mark_self :
      (k : ℕ) (v : Verdict) (s : Decoded)
      → k < length s.decoded_ok
      → get_elem? s.decoded_ok k ≡ some false
      → get_elem? (if v.done then set s.decoded_ok k true else s.decoded_ok) k ≡ some v.done
  mark_self k v s lt h = ground (arith, get_elem?-set_self s.decoded_ok k true)

  mark_ne :
      (k i : ℕ) (v : Verdict) (s : Decoded)
      → k ≢ i
      → get_elem? (if v.done then set s.decoded_ok k true else s.decoded_ok) i
        ≡ get_elem? s.decoded_ok i
  mark_ne k i v s ne = ground (arith, get_elem?-set_ne s.decoded_ok {i = k} {j = i} true)

  length_mark :
      (k : ℕ) (v : Verdict) (s : Decoded)
      → length (if v.done then set s.decoded_ok k true else s.decoded_ok) ≡ length s.decoded_ok
  length_mark k v s = ground (arith, length-set s.decoded_ok k true)

  write-RowMarks_self :
      (k : ℕ) (out : Option Verdict) (s : Decoded)
      → k < length digests
      → Progress k s
      → RowMarks (write k out s) k out
  write-RowMarks_self k none s lt p = p.rest k (omega arith) lt
  write-RowMarks_self k (some v) s lt p =
      let (bufs, marks, _) = write_parts k v s in
      (
        rw marks (mark_self k v s (omega (arith, p.ok_slots)) (p.rest k (omega arith) lt)),
        rw bufs
            (get_elem?-set_self s.check_bufs k (contents v.buffer) (omega (arith, p.buf_slots))),
      )

  write-RowMarks_ne :
      (k i : ℕ) (out old : Option Verdict) (s : Decoded)
      → k ≢ i
      → RowMarks s i old
      → RowMarks (write k out s) i old
  write-RowMarks_ne k i none old s ne h = h
  write-RowMarks_ne k i (some v) none s ne h =
      let (_, marks, _) = write_parts k v s in rw marks (mark_ne k i v s ne ∙ h)
  write-RowMarks_ne k i (some v) (some w) s ne h =
      let (bufs, marks, _) = write_parts k v s in
      (
        rw marks (mark_ne k i v s ne ∙ h.0),
        rw bufs (get_elem?-set_ne s.check_bufs (contents v.buffer) ne ∙ h.1),
      )

  write-ok :
      (k : ℕ) (out : Option Verdict) (s : Decoded)
      → row k ≡ some out
      → Progress k s
      → ((write k out s).ok ≡ true → AllDone (suc k))
        × (AllDone (suc k) → (write k out s).ok ≡ true)
  write-ok k none s e p = (
    λ h i lt v r. elim (ℕ_discrete i k) [
      | yes same ↦ let clash : row k ≡ some (some v) = rw same at r in cc clash
      | no other ↦ p.sound h i (omega arith) v r
    ],
    λ all. p.complete (λ i lt v r. all i (omega arith) v r),
  )
  write-ok k (some w) s e p =
      let (_, _, flag) = write_parts k w s in
      (
        λ h i lt v r. elim (ℕ_discrete i k) [
          | yes same ↦
              let now : row k ≡ some (some v) = rw same at r in ground (arith, flag, h, e, now)
          | no other ↦ p.sound (ground (arith, flag, h)) i (omega arith) v r
        ],
        λ all.
            rw (flag, all k (omega arith) w e) (p.complete (λ i lt v r. all i (omega arith) v r)),
      )

  pub write-Progress :
      (k : ℕ) (out : Option Verdict) (s : Decoded)
      → k < length digests
      → row k ≡ some out
      → Progress k s
      → Progress (suc k) (write k out s)
  write-Progress k out s lt e p = record {
    buf_slots = sizes.0;
    ok_slots = sizes.1;
    rows = λ i below. elim (ℕ_discrete i k) [
      | yes same ↦ rw same (out, e, write-RowMarks_self k out s lt p)
      | no other ↦
          let (old, r, h) = p.rows i (omega arith) in
          (old, r, write-RowMarks_ne k i out old s (λ q. other (sym q)) h)
    ];
    rest = λ i above below.
        write-RowMarks_ne k i out none s (omega arith) (p.rest i (omega arith) below);
    sound = (write-ok k out s e p).0;
    complete = (write-ok k out s e p).1;
  }
    where
      sizes_of :
          (o : Option Verdict)
          → (length (write k o s).check_bufs ≡ length digests)
            × (length (write k o s).decoded_ok ≡ length digests)
      sizes_of none = (p.buf_slots, p.ok_slots)
      sizes_of (some v) =
          let (bufs, marks, _) = write_parts k v s in
          (
            rw bufs (length-set s.check_bufs k (contents v.buffer) ∙ p.buf_slots),
            rw marks (length_mark k v s ∙ p.ok_slots),
          )

      sizes :
          (length (write k out s).check_bufs ≡ length digests)
          × (length (write k out s).decoded_ok ≡ length digests)
      sizes = sizes_of out

  -- With an encoded slot for each digest the workers come through the window.
  pub decode_rows :
      length enc_cache ≡ length digests
      → (s : Decoded) × (run_from
            (decode_body lib fmt digests enc_cache true)
            (length digests)
            0
            (decode_start true (length digests))
          ≡ some s)
        × Progress (length digests) s
  unfolding decode_body decode_row decode_start
  decode_rows same_size =
      run_from_total (decode_body lib fmt digests enc_cache true) Progress (length digests) keep
        (length digests) 0 _ (omega arith)
        (record {
          buf_slots = length-replicate (length digests) _;
          ok_slots = length-replicate (length digests) _;
          rows = λ i lt. absurd (omega arith);
          rest = λ i _ lt. get_elem?-replicate (length digests) i false lt;
          sound = λ _ i lt. absurd (omega arith);
          complete = λ _. refl;
        })
    where
      keep :
          (k : ℕ) (s : Decoded)
          → k < length digests
          → Progress k s
          → (s' : Decoded) × (decode_body lib fmt digests enc_cache true k s ≡ some s')
            × Progress (suc k) s'
      keep k s lt p =
          let (dig, d) = get_elem?-some digests k lt in
          let (e, c) = get_elem?-some enc_cache k (omega arith) in
          let out : Option Verdict = decode_block_of lib fmt dig e in
          let r : row k ≡ some out = rw (d, c) in
          (write k out s, rw r, write-Progress k out s lt r p)
