-- ===== src/Retrieve/Reset.antt =====
-- `dep_reset` on the graph of the dependents.
use epri_client.Prelude.{
  ℕ, zero, suc, ◌<◌, ◌≡◌, refl, sym, ◌∙◌, ap, arith, true, false, Option, none, some, List, [], ◌∷◌,
  ◌==◌, Bool-cases, inl, inr, ◌⊎◌,
}
use mathlib.Core.Path.{subst}
use epri_client.LinkedList.{find_by_data}
use epri_client.Retrieve.{Stub, Store, put_stub, set_complete}
use epri_client.Retrieve.Graph.{leave_req, leave_req_as, reset_deps, dep_reset}

-- The stubs that depend on a stub, directly or through others, and the stub itself.
pub data Reach (deps : ℕ → List ℕ) : ℕ → ℕ → Type 0 where
  self : {s : ℕ} → Reach deps s s
  via : {s d t : ℕ} → find_by_data (deps s) d ≡ true → Reach deps d t → Reach deps s t

abbrev pub deps_of : Store → ℕ → List ℕ
deps_of st s = (st.stub s).deps

-- The dependents have no cycle: the rank falls from a stub to those that depend on it.
abbrev pub IsAcyclic : (ℕ → List ℕ) → (ℕ → ℕ) → Type 0
IsAcyclic deps rank = (s d : ℕ) → find_by_data (deps s) d ≡ true → rank d < rank s

-- The stubs whose completeness a reset takes away, and what it leaves alone.
pub record IsReset (st : Store) (Lost : ℕ → Type 0) (st' : Store) : Type 0 where
  pub same_deps : (t : ℕ) → deps_of st' t ≡ deps_of st t
  pub lost : (t : ℕ) → Lost t → (st'.stub t).complete ≡ false
  pub stays : (t : ℕ) → (st.stub t).complete ≡ false → (st'.stub t).complete ≡ false

pub put_stub-deps :
    (st : Store) (k : ℕ) (v : Stub)
    → v.deps ≡ deps_of st k
    → (t : ℕ) → deps_of (put_stub st k v) t ≡ deps_of st t
put_stub-deps st k v e t = elim (Bool-cases (t == k)) [
  | inl h ↦ let eq : t ≡ k = ground arith in rw (deps_of, h) (e ∙ ap (deps_of st) (sym eq))
  | inr h ↦ rw (deps_of, h) refl
]

put_stub-complete :
    (st : Store) (k : ℕ) (v : Stub) (t : ℕ)
    → v.complete ≡ (st.stub k).complete
    → (st.stub t).complete ≡ false
    → ((put_stub st k v).stub t).complete ≡ false
put_stub-complete st k v t e h = elim (Bool-cases (t == k)) [
  | inl same ↦
      let eq : t ≡ k = ground arith in rw same (e ∙ ap (λ x. (st.stub x).complete) (sym eq) ∙ h)
  | inr other ↦ rw other h
]

leave_as-IsReset :
    (st : Store) (s d : ℕ) (info : Option ℕ) → IsReset st (λ t. ⊥) (leave_req_as st s d info)
unfolding leave_req_as
leave_as-IsReset st s d none = record {
  same_deps = put_stub-deps st d _ refl;
  lost = λ t h. absurd h;
  stays = λ t h. put_stub-complete st d _ t refl h;
}
leave_as-IsReset st s d (some info) = record {
  same_deps = put_stub-deps st d _ refl;
  lost = λ t h. absurd h;
  stays = λ t h. put_stub-complete st d _ t refl h;
}

leave_req-IsReset : (st : Store) (s d : ℕ) → IsReset st (λ t. ⊥) (leave_req st s d)
unfolding leave_req
leave_req-IsReset st s d = leave_as-IsReset st s d (st.stub d).info

set_complete-IsReset : (st : Store) (s : ℕ) → IsReset st (λ t. t ≡ s) (set_complete st s false)
set_complete-IsReset st s = record {
  same_deps = put_stub-deps st s _ refl;
  lost = λ t h. ground arith;
  stays = λ t h. ground arith;
}

then-IsReset :
    {st st' st'' : Store} {L M N : ℕ → Type 0}
    → ((t : ℕ) → N t → L t ⊎ M t)
    → IsReset st L st'
    → IsReset st' M st''
    → IsReset st N st''
then-IsReset split a b = record {
  same_deps = λ t. b.same_deps t ∙ a.same_deps t;
  lost = λ t n. elim (split t n) [ inl l ↦ b.stays t (a.lost t l) | inr m ↦ b.lost t m ];
  stays = λ t h. b.stays t (a.stays t h);
}

-- The stubs that depend on one of a list.
abbrev ReachSome : (ℕ → List ℕ) → List ℕ → ℕ → Type 0
ReachSome deps ds t = (d : ℕ) × (find_by_data ds d ≡ true) × Reach deps d t

abbrev HasDeps : (ℕ → List ℕ) → Store → Type 0
HasDeps deps st = (t : ℕ) → deps_of st t ≡ deps t

head_or_tail :
    (deps : ℕ → List ℕ) (d : ℕ) (ds : List ℕ) (t : ℕ)
    → ReachSome deps (d ∷ ds) t
    → Reach deps d t ⊎ ReachSome deps ds t
unfolding find_by_data
head_or_tail deps d ds t (e, found, r) = elim (Bool-cases (d == e)) [
  | inl same ↦ let eq : d ≡ e = ground arith in inl (subst (λ x. Reach deps x t) (sym eq) r)
  | inr other ↦ inr (e, ground arith, r)
]

reset_deps-IsReset :
    (recurse : Store → ℕ → Option Store) (deps : ℕ → List ℕ) (rank : ℕ → ℕ) (bound s : ℕ)
    (ds : List ℕ) (st : Store)
    → ((x : Store) (d : ℕ)
        → HasDeps deps x
        → rank d < bound
        → (y : Store) × (recurse x d ≡ some y) × IsReset x (Reach deps d) y)
    → ((d : ℕ) → find_by_data ds d ≡ true → rank d < bound)
    → HasDeps deps st
    → (st' : Store) × (reset_deps recurse s ds st ≡ some st') × IsReset st (ReachSome deps ds) st'
unfolding reset_deps find_by_data
reset_deps-IsReset recurse deps rank bound s [] st rec low has =
    (st, refl, record { same_deps = λ t. refl; lost = λ t h. absurd (cc (h.1)); stays = λ t h. h })
reset_deps-IsReset recurse deps rank bound s (d ∷ ds) st rec low has =
    let left = leave_req-IsReset st s d in
    let (y, run, done) =
      rec (leave_req st s d) d (λ t. left.same_deps t ∙ has t) (low d (ground arith)) in
    let (z, more, rest) =
      reset_deps-IsReset recurse deps rank bound s ds y rec (λ e h. low e (ground arith))
        (λ t. done.same_deps t ∙ left.same_deps t ∙ has t) in
    (
      z,
      rw (reset_deps, run) more,
      then-IsReset (λ t h. head_or_tail deps d ds t h) (then-IsReset (λ t h. inr h) left done) rest,
    )

split-Reach : (deps : ℕ → List ℕ) (s t : ℕ) → Reach deps s t → (t ≡ s) ⊎ ReachSome deps (deps s) t
split-Reach deps s t self = inl refl
split-Reach deps s t (via {d = d} found r) = inr (d, found, r)

walk-IsReset :
    (n : ℕ) (rank : ℕ → ℕ) (x : Store) (deps : ℕ → List ℕ) (k : ℕ)
    → IsAcyclic deps rank
    → HasDeps deps x
    → rank k < n
    → (y : Store) × (dep_reset n x k ≡ some y) × IsReset x (Reach deps k) y
unfolding dep_reset
walk-IsReset zero rank x deps k a has low = absurd (omega arith)
walk-IsReset (suc n) rank x deps k a has low =
    let first = set_complete-IsReset x k in
    let has' : HasDeps deps (set_complete x k false) = λ t. first.same_deps t ∙ has t in
    let (y, run, rest) =
      reset_deps-IsReset (dep_reset n) deps rank (rank k) k (deps k) (set_complete x k false)
        (λ z d hz lower. walk-IsReset n rank z deps d a hz (omega arith)) (a k) has' in
    (y, rw (has' k) run, then-IsReset (split-Reach deps k) first rest)

-- On a graph without a cycle `dep_reset` ends: with more fuel than the rank of the stub, it takes the
-- completeness of the stub and of every stub that depends on it, directly or through others, makes no
-- stub complete, and leaves the dependents of every stub as they were.
pub dep_reset-IsReset :
    (fuel : ℕ) (st : Store) (rank : ℕ → ℕ) (s : ℕ)
    → IsAcyclic (deps_of st) rank
    → rank s < fuel
    → (st' : Store) × (dep_reset fuel st s ≡ some st') × IsReset st (Reach (deps_of st) s) st'
dep_reset-IsReset fuel st rank s acyclic h =
    walk-IsReset fuel rank st (deps_of st) s acyclic (λ t. refl) h
