-- ===== src/Schedule/Disjoint.antt =====
-- The blocks of the active queue control disjoint sets of DER controls.
use Prim.Native.Nat.{Ordering}
use epri_client.LinkedList.{insert_sorted, is_gt}
use epri_client.LinkedList.Sort.{insert_sorted-All}
use mathlib.Core.Path.{fun_ext, subst}
use mathlib.Core.Bool.{false≢true}
use epri_client.Prelude.{
  ℕ, ◌≤◌, ◌≡◌, ◌≢◌, refl, sym, ◌∙◌, inl, inr, ◌⊎◌, arith, Bool, false, List, [], ◌∷◌, ◌++◌,
  append-nil, append_assoc, All, ◌==◌, Bool-cases,
}
use epri_client.Schedule.{
  Schedule, Env, block_supersede, event_superseded, superseded_status, active_status,
  scheduled_status, event_start, event_started, set_status, emit,
}
use epri_client.Schedule.Insert.{
  load_der, insert_active_step, insert_active_loop, insert_active, start_active, activate_block,
}
use epri_client.Schedule.Controls.{
  der_of, Apart, Disjoint, Fits, Shrinks, Apart-comm, All-Shrinks, Disjoint-Shrinks,
  block_supersede-Compared, device_response_same, supersede_active_same, set_status_same,
}

-- The outcome of a round of the loop: the queue is as it was and the two blocks share no control,
-- or the queue is what stands behind the other block.
record Round (s : Schedule) (eb a : ℕ) (next : List ℕ) (t : Schedule) (returns : Bool)
    : Type 0 where
  shrinks : Shrinks (der_of s) (der_of t)
  fits : Fits (der_of t)
  queue : ((t.active ≡ s.active) × Apart (der_of t) eb a) ⊎ ((t.active ≡ next) × (returns ≡ false))

insert_active_step-Round :
    (env : Env) (s : Schedule) (eb a : ℕ) (next : List ℕ)
    → Fits (der_of s)
    → eb ≢ a
    → Round s eb a next
        (insert_active_step env s eb a next).0
        (insert_active_step env s eb a next).1
unfolding insert_active_step
insert_active_step-Round env s eb a next f ne =
    let c = block_supersede-Compared env s eb a f ne in
    let t = (block_supersede env s eb a).1 in
    elim (Bool-cases (block_supersede env s eb a).0) [
      | inl won ↦
          let (same, queue) = supersede_active_same env t eb a next in
          rw won (record {
            shrinks = rw same c.shrinks;
            fits = rw same c.fits;
            queue = inr (queue, refl);
          })
      | inr lost ↦ elim (Bool-cases ((t.block eb).der == 0)) [
        | inl nothing ↦
            let (same, queue) = set_status_same env t eb superseded_status event_superseded in
            rw (lost, nothing)
              (record {
                shrinks = rw same c.shrinks;
                fits = rw same c.fits;
                queue = inl (queue ∙ c.same_active, rw same (c.apart lost));
              })
        | inr something ↦
            rw (lost, something)
              (record {
                shrinks = c.shrinks;
                fits = c.fits;
                queue = inl (c.same_active, c.apart lost);
              })
      ]
    ]

All-append {ℓ κ} :
    {A : Type ℓ} (P : A → Type κ) (xs ys : List A) → All P xs → All P ys → All P (xs ++ ys)
All-append P [] ys h k = k
All-append P (x ∷ xs) ys (p, h) k = (p, All-append P xs ys h k)

Disjoint-append_right : (f : ℕ → ℕ) (xs ys : List ℕ) → Disjoint f (xs ++ ys) → Disjoint f ys
Disjoint-append_right f [] ys d = d
Disjoint-append_right f (x ∷ xs) ys d = Disjoint-append_right f xs ys d.1

-- What the loop leaves: a queue of disjoint blocks, from which the new block is apart unless it
-- was refused.
record Finished (eb : ℕ) (t : Schedule) (returned : Bool) : Type 0 where
  fits : Fits (der_of t)
  disjoint : Disjoint (der_of t) t.active
  apart : returned ≡ false → All (Apart (der_of t) eb) t.active

-- `passed` are the blocks of the queue that the loop has passed over.
insert_active_loop-Finished :
    (env : Env) (eb : ℕ) (passed rest : List ℕ) (s : Schedule)
    → Fits (der_of s)
    → s.active ≡ passed ++ rest
    → Disjoint (der_of s) (passed ++ rest)
    → All (Apart (der_of s) eb) passed
    → All (λ a. eb ≢ a) rest
    → Finished eb (insert_active_loop env eb rest s).0 (insert_active_loop env eb rest s).1
unfolding insert_active_loop
insert_active_loop-Finished env eb passed [] s f q d h ne = record {
  fits = f;
  disjoint = rw q d;
  apart = λ _. rw (q, append-nil) h;
}
insert_active_loop-Finished env eb passed (a ∷ rest) s f q d h (ne_a, ne) =
    let r = insert_active_step-Round env s eb a rest f ne_a in
    let t = (insert_active_step env s eb a rest).0 in
    let d' = Disjoint-Shrinks (der_of s) (der_of t) (passed ++ a ∷ rest) r.shrinks d in
    let h' = All-Shrinks (der_of s) (der_of t) eb passed r.shrinks h in
    elim (Bool-cases (insert_active_step env s eb a rest).1) [
      | inl returns ↦
          rw (returns, insert_active_loop)
            (record {
              fits = r.fits;
              disjoint = elim r.queue [
                | inl (same, _) ↦ rw (same ∙ q) d'
                | inr (_, not_returned) ↦ absurd (false≢true (sym not_returned ∙ returns))
              ];
              apart = λ e. absurd (false≢true (sym e));
            })
      | inr goes_on ↦
          rw (goes_on, insert_active_loop)
            (elim r.queue [
              | inl (same, apart) ↦
                  insert_active_loop-Finished env eb (passed ++ a ∷ []) rest t r.fits
                    (same ∙ q ∙ sym (append_assoc passed (a ∷ []) rest)) (rw append_assoc d')
                    (All-append _ passed (a ∷ []) h' (apart, tt)) ne
              | inr (cut, _) ↦
                  insert_active_loop-Finished env eb [] rest t r.fits cut
                    (Disjoint-append_right _ (passed ++ a ∷ []) rest (rw append_assoc d')) tt ne
            ])
    ]

insert_sorted-Disjoint :
    (compare : ℕ → ℕ → Ordering) (f : ℕ → ℕ) (xs : List ℕ) (item : ℕ)
    → Disjoint f xs
    → All (Apart f item) xs
    → Disjoint f (insert_sorted compare xs item)
unfolding insert_sorted
insert_sorted-Disjoint compare f [] item d h = (tt, tt)
insert_sorted-Disjoint compare f (x ∷ xs) item (hx, d) (p, h) =
    elim (Bool-cases (is_gt (compare item x))) [
      | inl above ↦ rw above (
        insert_sorted-All compare (Apart f x) xs item hx (Apart-comm f item x p),
        insert_sorted-Disjoint compare f xs item d h,
      )
      | inr below ↦ rw below ((p, h), (hx, d))
    ]

activate_block_same :
    (env : Env) (s : Schedule) (eb : ℕ)
    → (der_of (activate_block env s eb) ≡ der_of s) × ((activate_block env s eb).active ≡ s.active)
unfolding activate_block
activate_block_same env s eb =
    let (block, active) =
      device_response_same env (emit (set_status s eb active_status) (event_start eb)) eb
        event_started in
    elim (Bool-cases ((s.block eb).status == active_status)) [
      | inl on ↦ rw on (refl, refl)
      | inr off ↦ rw (off, block) (fun_ext (λ x. ground arith), active)
    ]

start_active_same :
    (env : Env) (s : Schedule) (eb : ℕ)
    → (der_of (start_active env s eb) ≡ der_of s) × ((start_active env s eb).active ≡ s.active)
unfolding start_active
start_active_same env s eb = elim (Bool-cases ((env.event eb).current_status == scheduled_status)) [
  | inl waits ↦ rw waits (fun_ext (λ x. ground arith), ground arith)
  | inr other ↦ elim (Bool-cases ((env.event eb).current_status == active_status)) [
    | inl on ↦ rw (other, on) (activate_block_same env s eb)
    | inr none_of_these ↦ rw (other, none_of_these) (refl, refl)
  ]
]

load_der_apart :
    (env : Env) (s : Schedule) (eb a : ℕ) → eb ≢ a → der_of (load_der env s eb) a ≡ der_of s a
load_der_apart env s eb a ne = ground arith

load_der-All :
    (env : Env) (s : Schedule) (eb x : ℕ) (xs : List ℕ)
    → eb ≢ x
    → All (λ a. eb ≢ a) xs
    → All (Apart (der_of s) x) xs
    → All (Apart (der_of (load_der env s eb)) x) xs
load_der-All env s eb x [] ne h d = tt
load_der-All env s eb x (y ∷ xs) ne (ne_y, h) (p, d) = (
  rw (load_der_apart env s eb x ne, load_der_apart env s eb y ne_y) p,
  load_der-All env s eb x xs ne h d,
)

load_der-Disjoint :
    (env : Env) (s : Schedule) (eb : ℕ) (xs : List ℕ)
    → All (λ a. eb ≢ a) xs
    → Disjoint (der_of s) xs
    → Disjoint (der_of (load_der env s eb)) xs
load_der-Disjoint env s eb [] h d = tt
load_der-Disjoint env s eb (x ∷ xs) (ne, h) (p, d) =
    (load_der-All env s eb x xs ne h p, load_der-Disjoint env s eb xs h d)

load_der-Fits :
    (env : Env) (s : Schedule) (eb : ℕ)
    → Fits (der_of s)
    → (env.event eb).der_base ≤ 0xffff_ffff
    → Fits (der_of (load_der env s eb))
load_der-Fits env s eb f base x = ground (arith, f x)

load_der_active : (env : Env) (s : Schedule) (eb : ℕ) → (load_der env s eb).active ≡ s.active
load_der_active env s eb = ground arith

-- `insert_active` of a block that is not in the active queue keeps the controls of the blocks in
-- this queue disjoint, if all masks fit in 32 bits.
pub insert_active-Disjoint :
    (env : Env) (s : Schedule) (eb : ℕ)
    → Fits (der_of s)
    → (env.event eb).der_base ≤ 0xffff_ffff
    → All (λ a. eb ≢ a) s.active
    → Disjoint (der_of s) s.active
    → Disjoint (der_of (insert_active env s eb)) (insert_active env s eb).active
unfolding insert_active
insert_active-Disjoint env s eb f base ne d =
    let s' = load_der env s eb in
    let loop =
      insert_active_loop-Finished env eb [] s'.active s' (load_der-Fits env s eb f base) refl
        (subst (Disjoint (der_of s')) (sym (load_der_active env s eb))
          (load_der-Disjoint env s eb s.active ne d))
        tt (subst (All (λ a. eb ≢ a)) (sym (load_der_active env s eb)) ne) in
    let u = (insert_active_loop env eb s'.active s').0 in
    elim (Bool-cases (insert_active_loop env eb s'.active s').1) [
      | inl returned ↦ rw returned loop.disjoint
      | inr done ↦
          let (same, queue) = start_active_same env u eb in
          rw (done, same, queue)
            (insert_sorted-Disjoint _ (der_of u) u.active eb loop.disjoint (loop.apart done))
    ]
