-- ===== src/Schedule/Losses.antt =====
-- schedule.c: which active blocks `insert_active` loses, since `prev` is never advanced in its loop.
use epri_client.Prelude.{
  ℕ, ◌≡◌, refl, sym, ◌∙◌, ap, ◌⊎◌, inl, inr, true, false, List, [], ◌∷◌, ◌++◌, append_assoc, ◌==◌,
  Bool-cases,
}
use epri_client.Schedule.{
  Schedule, Env, block_supersede, prevails, event_superseded, superseded_status,
}
use epri_client.Schedule.Controls.{supersede_active_same, set_status_same}
use epri_client.Schedule.Insert.{insert_active_loop, insert_active_step}

-- The loop goes over the blocks `before`: none of them is superseded, and each leaves the new block
-- something to control.
pub data Passes (env : Env) (eb : ℕ) : List ℕ → Schedule → Schedule → Type 0 where
  passed_none : {s : Schedule} → Passes env eb [] s s
  passed :
      {a : ℕ} {before : List ℕ} {s s' t : Schedule}
      → block_supersede env s eb a ≡ (false, s')
      → ((s'.block eb).der == 0) ≡ false
      → Passes env eb before s' t
      → Passes env eb (a ∷ before) s t

supersede_same-active :
    (env : Env) (s : Schedule) (eb a : ℕ) → (block_supersede env s eb a).1.active ≡ s.active
unfolding block_supersede
supersede_same-active env s eb a = elim (Bool-cases (prevails env s eb a)) [
  | inl up ↦ elim (Bool-cases ((s.block eb).der == 0)) [
    | inl nothing ↦ rw (up, nothing) refl
    | inr something ↦ rw (up, something) refl
  ]
  | inr down ↦ rw down refl
]

-- A round keeps the queue or makes it what stands behind its block.
step-active :
    (env : Env) (s : Schedule) (eb a : ℕ) (next : List ℕ)
    → ((insert_active_step env s eb a next).0.active ≡ s.active)
      ⊎ ((insert_active_step env s eb a next).0.active ≡ next)
unfolding insert_active_step
step-active env s eb a next =
    let t = (block_supersede env s eb a).1 in
    let same = supersede_same-active env s eb a in
    elim (Bool-cases (block_supersede env s eb a).0) [
      | inl won ↦ rw won (inr (supersede_active_same env t eb a next).1)
      | inr lost ↦ elim (Bool-cases ((t.block eb).der == 0)) [
        | inl nothing ↦
            rw (lost, nothing)
              (inl ((set_status_same env t eb superseded_status event_superseded).1 ∙ same))
        | inr something ↦ rw (lost, something) (inl same)
      ]
    ]

-- A queue that `l` ends with.
abbrev pub IsEnd : List ℕ → List ℕ → Type 0
IsEnd l queue = (gone : List ℕ) × (gone ++ queue ≡ l)

IsEnd-behind : (before l queue : List ℕ) → IsEnd l queue → IsEnd (before ++ l) queue
IsEnd-behind before l queue (gone, e) =
    (before ++ gone, append_assoc before gone queue ∙ ap (λ (m : List ℕ). before ++ m) e)

loop-IsEnd :
    (env : Env) (eb : ℕ) (before next : List ℕ) (s : Schedule)
    → s.active ≡ before ++ next
    → IsEnd (before ++ next) (insert_active_loop env eb next s).0.active
unfolding insert_active_loop
loop-IsEnd env eb before [] s e = ([], e)
loop-IsEnd env eb before (a ∷ next) s e =
    let t = (insert_active_step env s eb a next).0 in
    let split : before ++ a ∷ next ≡ (before ++ a ∷ []) ++ next =
      sym (append_assoc before (a ∷ []) next) in
    elim (Bool-cases (insert_active_step env s eb a next).1) [
      | inl returns ↦ elim (step-active env s eb a next) [
        | inl same ↦ rw returns ([], same ∙ e)
        | inr cut ↦
            rw returns
              (before ++ a ∷ [], ap (λ (m : List ℕ). (before ++ a ∷ []) ++ m) cut ∙ sym split)
      ]
      | inr goes_on ↦ elim (step-active env s eb a next) [
        | inl same ↦
            let (gone, ends) = loop-IsEnd env eb (before ++ a ∷ []) next t (same ∙ e ∙ split) in
            rw goes_on (gone, ends ∙ sym split)
        | inr cut ↦
            let (gone, ends) =
              IsEnd-behind (before ++ a ∷ []) next _ (loop-IsEnd env eb [] next t cut) in
            rw goes_on (gone, ends ∙ sym split)
      ]
    ]

superseded-IsEnd :
    (env : Env) (s s₂ : Schedule) (eb b : ℕ) (rest : List ℕ)
    → block_supersede env s eb b ≡ (true, s₂)
    → IsEnd rest (insert_active_loop env eb (b ∷ rest) s).0.active
unfolding insert_active_loop insert_active_step
superseded-IsEnd env s s₂ eb b rest e =
    rw e (loop-IsEnd env eb [] rest _ (supersede_active_same env s₂ eb b rest).1)

-- Where the loop of `insert_active` supersedes a block behind others that it passed, the queue that it
-- leaves is an end of what stands behind this block: all the blocks in front of it are lost, though
-- none of them was superseded.
pub insert_active_loses :
    (env : Env) (eb b : ℕ) (rest before : List ℕ) (s s₁ s₂ : Schedule)
    → Passes env eb before s s₁
    → block_supersede env s₁ eb b ≡ (true, s₂)
    → IsEnd rest (insert_active_loop env eb (before ++ b ∷ rest) s).0.active
unfolding insert_active_loop insert_active_step
insert_active_loses env eb b rest _ s _ s₂ passed_none e = superseded-IsEnd env s s₂ eb b rest e
insert_active_loses env eb b rest _ s s₁ s₂ (passed {s' = s'} kept left more) e =
    rw (insert_active_loop, insert_active_step, kept, left)
      (insert_active_loses env eb b rest _ s' s₁ s₂ more e)
