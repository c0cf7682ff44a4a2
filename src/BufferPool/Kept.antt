-- ===== src/BufferPool/Kept.antt =====
-- The capacities and kinds of a thread's caches (redcli/rle4k_buffer_mgr.cpp), and what an allocation
-- returns.
use encoder_rle4k_cpu.Base.{
  ℕ, ◌≤◌, ◌≡◌, refl, inl, inr, Bool, true, false, List, [], ◌∷◌, Option, none, some, arith, length,
  ltb, leb, Bool-cases, if◌then◌else◌,
}
use encoder_rle4k_cpu.BufferPool.{
  Buffer, Manager, max_normal, max_big, new_from_system, pop_reusable, normal_new, or_else,
  normal_alloc, big_alloc, alloc, free,
}

-- Every buffer of a stack has the flag.
abbrev pub AllFlagged : Bool → List Buffer → Type 0
AllFlagged flag [] = Unit {0}
AllFlagged flag (b ∷ bs) = (b.big_buffer ≡ flag) × AllFlagged flag bs

-- The caches are within their capacities, and each holds buffers of its kind.
pub record WellKept (m : Manager) : Type 0 where
  pub normal_cap : length m.normal ≤ max_normal
  pub big_cap : length m.big ≤ max_big
  pub normal_kind : AllFlagged false m.normal
  pub big_kind : AllFlagged true m.big

-- A buffer that serves a request.
abbrev pub Fits : ℕ → Bool → Option Buffer → Type 0
Fits size flag none = Unit {0}
Fits size flag (some b) = (size ≤ b.buffer_size) × (b.big_buffer ≡ flag)

pub pop_reusable-Fits :
    (stack : List Buffer) (size : ℕ) (freed : List ℕ) (flag : Bool)
    → AllFlagged flag stack
    → let popped = pop_reusable stack size freed in
      Fits size flag popped.0 × AllFlagged flag popped.1 × (length popped.1 ≤ length stack)
unfolding pop_reusable
pop_reusable-Fits [] size freed flag all = (tt, tt, omega arith)
pop_reusable-Fits (b ∷ rest) size freed flag all =
    let (fits, kind, short) = pop_reusable-Fits rest size (b.id ∷ freed) flag all.1 in
    elim (Bool-cases (leb size b.buffer_size)) [
      | inl large ↦ rw large ((ground arith, all.0), all.1, omega arith)
      | inr small ↦ rw small (fits, kind, omega arith)
    ]

module _ (granted : Bool) (size : ℕ) where
  -- A request that the thread's stack or the heap serves.
  abbrev pub Served : Bool → Option Buffer × Manager → Type 0
  Served flag r =
      WellKept r.1 × Fits size flag r.0 × (granted ≡ true → (b : Buffer) × (r.0 ≡ some b))

  new_from_system-Served :
      (flag : Bool) (m : Manager) (alloc_size : ℕ)
      → size ≤ alloc_size
      → WellKept m
      → Served flag (new_from_system granted alloc_size flag m)
  unfolding new_from_system
  new_from_system-Served flag m alloc_size le p = elim (Bool-cases granted) [
    | inl yes_granted ↦ rw yes_granted (
      record {
        normal_cap = p.normal_cap;
        big_cap = p.big_cap;
        normal_kind = p.normal_kind;
        big_kind = p.big_kind;
      },
      (le, refl),
      λ _. (_, refl),
    )
    | inr refused ↦ rw refused (p, tt, λ h. cc h)
  ]

  or_else-Served :
      (flag : Bool) (found : Option Buffer) (m : Manager) (fallback : Option Buffer × Manager)
      → WellKept m
      → Fits size flag found
      → Served flag fallback
      → Served flag (or_else found m fallback)
  or_else-Served flag none m fallback p fits served = served
  or_else-Served flag (some b) m fallback p fits served = (p, fits, λ _. (b, refl))

  normal_new-Served : (m : Manager) → WellKept m → Served false (normal_new granted size m)
  unfolding normal_new
  normal_new-Served m p =
      let alloc_size : ℕ = if ltb size m.current_buffer_size then m.current_buffer_size else size in
      elim (Bool-cases (ltb m.current_buffer_size alloc_size)) [
        | inl raise ↦ rw raise (
            new_from_system-Served false _ alloc_size (ground arith) (record {
              normal_cap = p.normal_cap;
              big_cap = p.big_cap;
              normal_kind = p.normal_kind;
              big_kind = p.big_kind;
            }))
        | inr enough ↦ rw enough (new_from_system-Served false m alloc_size (ground arith) p)
      ]

-- `alloc` keeps the caches in order (4 normal buffers at most, 2 big ones at most, each buffer in the
-- stack of its kind), and a buffer that it returns has at least the requested size and the requested
-- kind. It returns a buffer whenever the heap grants one.
pub alloc-Served :
    (granted : Bool) (size : ℕ) (big : Bool) (m : Manager)
    → WellKept m
    → Served granted size big (alloc granted size big m)
unfolding alloc normal_alloc big_alloc
alloc-Served granted size true m p =
    let (fits, kind, short) = pop_reusable-Fits m.big size m.freed true p.big_kind in
    let popped = pop_reusable m.big size m.freed in
    let kept : WellKept (record m { big = popped.1; freed = popped.2 }) = record {
      normal_cap = p.normal_cap;
      big_cap = omega (arith, p.big_cap, short);
      normal_kind = p.normal_kind;
      big_kind = kind;
    } in
    or_else-Served granted size true _ _ _ kept fits
      (new_from_system-Served granted size true _ size (omega arith) kept)
alloc-Served granted size false m p =
    let (fits, kind, short) = pop_reusable-Fits m.normal size m.freed false p.normal_kind in
    let popped = pop_reusable m.normal size m.freed in
    let kept : WellKept (record m { normal = popped.1; freed = popped.2 }) = record {
      normal_cap = omega (arith, p.normal_cap, short);
      big_cap = p.big_cap;
      normal_kind = kind;
      big_kind = p.big_kind;
    } in
    or_else-Served granted size false _ _ _ kept fits (normal_new-Served granted size _ kept)

-- `free` keeps the caches in order, whatever buffer it is given.
pub free-WellKept : (b : Option Buffer) (m : Manager) → WellKept m → WellKept (free b m)
unfolding free
free-WellKept none m p = p
free-WellKept (some b) m p = elim (Bool-cases b.big_buffer) [
  | inl is_big ↦ elim (Bool-cases (ltb (length m.big) max_big)) [
    | inl room ↦
        rw (is_big, room)
          (record {
            normal_cap = p.normal_cap;
            big_cap = ground arith;
            normal_kind = p.normal_kind;
            big_kind = (refl, p.big_kind);
          })
    | inr full ↦
        rw (is_big, full)
          (record {
            normal_cap = p.normal_cap;
            big_cap = p.big_cap;
            normal_kind = p.normal_kind;
            big_kind = p.big_kind;
          })
  ]
  | inr is_normal ↦ elim (Bool-cases (ltb (length m.normal) max_normal)) [
    | inl room ↦
        rw (is_normal, room)
          (record {
            normal_cap = ground arith;
            big_cap = p.big_cap;
            normal_kind = (refl, p.normal_kind);
            big_kind = p.big_kind;
          })
    | inr full ↦
        rw (is_normal, full)
          (record {
            normal_cap = p.normal_cap;
            big_cap = p.big_cap;
            normal_kind = p.normal_kind;
            big_kind = p.big_kind;
          })
  ]
]
