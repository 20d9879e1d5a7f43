-- ===== src/Schedule/Controls.antt =====
-- The DER controls of the blocks: disjoint masks, and what comparing and superseding blocks leaves.

use mathlib.Core.Path.{fun_ext}
use epri_client.Prelude.{
  ℕ, ◌≤◌, ◌≡◌, ◌≢◌, refl, sym, ◌∙◌, inl, inr, arith, Bool, false, List, [], ◌∷◌, All, ◌==◌, bit_and,
  Bool-cases,
}
use epri_client.Prelude.Masks.{bit_and_comm, bit_and-le, bit_and_disjoint, bit_and_complement}
use epri_client.Schedule.{
  Schedule, Env, Response, clear_bits, block_supersede, prevails, device_response, set_der,
  event_superseded, set_status,
}
use epri_client.Schedule.Insert.{cut_active, supersede_active}

-- The controls of each block.
abbrev pub der_of : Schedule → ℕ → ℕ
der_of s id = (s.block id).der

abbrev pub Apart : (ℕ → ℕ) → ℕ → ℕ → Type 0
Apart f a b = bit_and (f a) (f b) ≡ 0

abbrev pub Disjoint : (ℕ → ℕ) → List ℕ → Type 0
Disjoint f [] = Unit
Disjoint f (x ∷ xs) = All (Apart f x) xs × Disjoint f xs

-- Every mask fits in 32 bits.
abbrev pub Fits : (ℕ → ℕ) → Type 0
Fits f = (x : ℕ) → f x ≤ 0xffff_ffff

-- `g` has no bit that `f` lacks.
abbrev pub Shrinks : (ℕ → ℕ) → (ℕ → ℕ) → Type 0
Shrinks f g = (x y : ℕ) → bit_and (f x) y ≡ 0 → bit_and (g x) y ≡ 0

pub Apart-comm : (f : ℕ → ℕ) (a b : ℕ) → Apart f a b → Apart f b a
Apart-comm f a b h = bit_and_comm (f b) (f a) ∙ h

pub Apart-Shrinks : (f g : ℕ → ℕ) (a b : ℕ) → Shrinks f g → Apart f a b → Apart g a b
Apart-Shrinks f g a b s h =
    bit_and_comm (g a) (g b) ∙ s b (g a) (bit_and_comm (f b) (g a) ∙ s a (f b) h)

pub All-Shrinks :
    (f g : ℕ → ℕ) (a : ℕ) (xs : List ℕ) → Shrinks f g → All (Apart f a) xs → All (Apart g a) xs
All-Shrinks f g a [] s h = tt
All-Shrinks f g a (x ∷ xs) s (p, h) = (Apart-Shrinks f g a x s p, All-Shrinks f g a xs s h)

pub Disjoint-Shrinks : (f g : ℕ → ℕ) (xs : List ℕ) → Shrinks f g → Disjoint f xs → Disjoint g xs
Disjoint-Shrinks f g [] s d = tt
Disjoint-Shrinks f g (x ∷ xs) s (p, d) = (All-Shrinks f g x xs s p, Disjoint-Shrinks f g xs s d)

-- What a comparison of two blocks leaves.
pub record Compared (s : Schedule) (eb a : ℕ) (won : Bool) (t : Schedule) : Type 0 where
  pub shrinks : Shrinks (der_of s) (der_of t)
  pub fits : Fits (der_of t)
  pub same_active : t.active ≡ s.active
  pub apart : won ≡ false → Apart (der_of t) eb a

pub set_der-Shrinks :
    (s : Schedule) (a m : ℕ) → Shrinks (der_of s) (der_of (set_der s a (bit_and (s.block a).der m)))
set_der-Shrinks s a m x y h = ground (arith, bit_and_disjoint (s.block a).der y m)

pub set_der-Fits :
    (s : Schedule) (a m : ℕ)
    → Fits (der_of s)
    → Fits (der_of (set_der s a (bit_and (s.block a).der m)))
set_der-Fits s a m f x = ground (arith, bit_and-le (s.block a).der m, f x, f a)

pub cleared-Apart :
    (s : Schedule) (a b : ℕ)
    → Fits (der_of s)
    → a ≢ b
    → Apart (der_of (set_der s a (clear_bits (s.block a).der (s.block b).der))) a b
unfolding clear_bits
cleared-Apart s a b f ne = ground (arith, bit_and_complement (s.block b).der (s.block a).der (f b))

pub block_supersede-Compared :
    (env : Env) (s : Schedule) (eb a : ℕ)
    → Fits (der_of s)
    → eb ≢ a
    → Compared s eb a (block_supersede env s eb a).0 (block_supersede env s eb a).1
unfolding block_supersede
block_supersede-Compared env s eb a f ne = elim (Bool-cases (prevails env s eb a)) [
  | inl up ↦ elim (Bool-cases ((s.block eb).der == 0)) [
    | inl none_of_its_own ↦
        rw (up, none_of_its_own, block_supersede)
          (record { shrinks = λ x y h. h; fits = f; same_active = refl; apart = λ lost. cc })
    | inr some_left ↦
        rw (up, some_left, block_supersede)
          (record {
            shrinks = set_der-Shrinks s a _;
            fits = set_der-Fits s a _ f;
            same_active = refl;
            apart = λ lost.
                Apart-comm (der_of (set_der s a (clear_bits (s.block a).der (s.block eb).der))) a eb
                  (cleared-Apart s a eb f (λ e. ne (sym e)));
          })
  ]
  | inr down ↦
      rw (down, block_supersede)
        (record {
          shrinks = set_der-Shrinks s eb _;
          fits = set_der-Fits s eb _ f;
          same_active = refl;
          apart = λ lost. cleared-Apart s eb a f ne;
        })
]

-- A response changes nothing but what was sent.
pub device_response_same :
    (env : Env) (s : Schedule) (id : ℕ) (response : Response)
    → ((device_response env s id response).block ≡ s.block)
      × ((device_response env s id response).active ≡ s.active)
unfolding device_response
device_response_same env s id response = ground arith

pub cut_active_same :
    (s : Schedule) (eb a : ℕ) (next : List ℕ)
    → ((x : ℕ) → der_of (cut_active s eb a next) x ≡ der_of s x)
      × ((cut_active s eb a next).active ≡ next)
unfolding cut_active
cut_active_same s eb a next = (λ x. ground arith, ground arith)

pub supersede_active_same :
    (env : Env) (s : Schedule) (eb a : ℕ) (next : List ℕ)
    → (der_of (supersede_active env s eb a next) ≡ der_of s)
      × ((supersede_active env s eb a next).active ≡ next)
unfolding supersede_active
supersede_active_same env s eb a next =
    let (same, queue) = cut_active_same s eb a next in
    let (block, active) = device_response_same env (cut_active s eb a next) a event_superseded in
    (rw block (fun_ext same), active ∙ queue)

-- A change of status and a response change no control and no queue.
pub set_status_same :
    (env : Env) (s : Schedule) (id status : ℕ) (response : Response)
    → (der_of (device_response env (set_status s id status) id response) ≡ der_of s)
      × ((device_response env (set_status s id status) id response).active ≡ s.active)
set_status_same env s id status response =
    let (block, active) = device_response_same env (set_status s id status) id response in
    (rw block (fun_ext λ x. ground arith), active)
