-- ===== src/Machine/Memory/Bytes.antt =====
-- Bytes of the memory of machine/translate.cc: what is stored is what is loaded.
use native.Mathlib.Nat.{pow-suc, div-add-mod, div-div-eq-div-mul}
use csci350_project.Base.{
  ℕ, zero, suc, ◌+◌, ◌*◌, ◌/◌, ◌%◌, ◌^◌, ◌≤◌, ◌<◌, ◌≡◌, refl, ap, ◌∙◌, List, some, arith, ◌==◌,
  if◌then◌else◌, get_or, set, length, length-set, get_or-set_self, get_or-set_ne, ◌⊎◌, inl,
}
use csci350_project.Machine.Translate.Laws.{IsSize, one, two, four}
use csci350_project.Machine.Memory.{load_le, store_le, sign_extend8, load, store}

mod_bytes : (n v : ℕ) → v % 256 + 256 * (v / 256 % 256 ^ n) ≡ v % 256 ^ suc n
mod_bytes n v =
    let e : 256 ^ suc n ≡ 256 * 256 ^ n = omega (arith, pow-suc 256 n) in
    rw e (
      omega (
        arith,
        div-add-mod (v / 256) (256 ^ n),
        div-add-mod v (256 * 256 ^ n),
        ap (λ (t : ℕ). 256 ^ n * t) (div-div-eq-div-mul v 256 (256 ^ n)),
      ))

pub length-store_le : (n p v : ℕ) (mem : List ℕ) → length (store_le mem p n v) ≡ length mem
unfolding store_le
length-store_le zero p v mem = refl
length-store_le (suc n) p v mem =
    length-store_le n (p + 1) (v / 256) (set mem p (v % 256)) ∙ length-set mem p (v % 256)

-- A store touches its own bytes only.
pub store_le-outside :
    (n p v j : ℕ) (mem : List ℕ)
    → (j < p) ⊎ (p + n ≤ j)
    → get_or (store_le mem p n v) j 0 ≡ get_or mem j 0
unfolding store_le
store_le-outside zero p v j mem h = refl
store_le-outside (suc n) p v j mem h =
    store_le-outside n (p + 1) (v / 256) j (set mem p (v % 256)) (ground arith)
    ∙ get_or-set_ne mem (v % 256) 0 (λ e. omega arith)

pub load_le-store_le :
    (n p v : ℕ) (mem : List ℕ) → p + n ≤ length mem → load_le (store_le mem p n v) p n ≡ v % 256 ^ n
unfolding load_le store_le
load_le-store_le zero p v mem h = omega arith
load_le-store_le (suc n) p v mem h =
    rw
      (
        store_le-outside n (p + 1) (v / 256) p (set mem p (v % 256)) (inl (omega arith)),
        get_or-set_self mem p (v % 256) 0 (omega arith),
        load_le-store_le n (p + 1) (v / 256) (set mem p (v % 256))
            (rw (length-set mem p (v % 256)) (omega arith)),
      )
      (mod_bytes n v)

-- What a load of `size` bytes finds after a store of `v`.
abbrev pub loaded : ℕ → ℕ → ℕ
loaded size v =
    if size == 1 then sign_extend8 (v % 2 ^ 8) else (if size == 2 then v % 2 ^ 16 else v % 2 ^ 32)

-- Within the memory, a store of 1, 2 or 4 bytes succeeds, a load of that size then gives what was
-- stored, cut to that size, and no other byte changes.
pub load-store :
    (mem : List ℕ) (p size v : ℕ)
    → IsSize size
    → p + size ≤ length mem
    → (mem' : List ℕ) × (store mem p size v ≡ some mem')
      × (load mem' p size ≡ some (loaded size v))
      × ((j : ℕ) → (j < p) ⊎ (p + size ≤ j) → get_or mem' j 0 ≡ get_or mem j 0)
      × (length mem' ≡ length mem)
unfolding load store
load-store mem p size v (one e) h = (
  store_le mem p 1 v,
  rw e,
  rw (e, load_le-store_le 1 p v mem (omega arith)),
  (λ j out. store_le-outside 1 p v j mem (rw e at out)),
  length-store_le 1 p v mem,
)
load-store mem p size v (two e) h = (
  store_le mem p 2 v,
  rw e,
  rw (e, load_le-store_le 2 p v mem (omega arith)),
  (λ j out. store_le-outside 2 p v j mem (rw e at out)),
  length-store_le 2 p v mem,
)
load-store mem p size v (four e) h = (
  store_le mem p 4 v,
  rw e,
  rw (e, load_le-store_le 4 p v mem (omega arith)),
  (λ j out. store_le-outside 4 p v j mem (rw e at out)),
  length-store_le 4 p v mem,
)
