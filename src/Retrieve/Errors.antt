-- ===== src/Retrieve/Errors.antt =====
-- retrieve.c: what a response that failed does to the stubs.
use epri_client.Prelude.{
  ℕ, ◌≡◌, ◌≢◌, refl, sym, ◌∙◌, ap, arith, Bool, true, false, Option, none, some, ◌∷◌, ◌||◌, ◌==◌,
  if◌then◌else◌, Bool-cases, Option-cases, inl, inr,
}
use epri_client.Prelude.Int.{pos}
use epri_client.Util.{Bytes}
use epri_client.Retrieve.{Stub, Store, Env, retrieve_fail, put_stub, emit, find_stub}
use epri_client.Retrieve.Process.{Objects, Response, is_get, process_failure, process_http}

-- A failure changes the status of a stub and nothing else of the store but the calls.
pub record IsFailure (st : Store) (target : Option ℕ) (status : ℕ) (st' : Store) : Type 0 where
  pub same_graph :
      (t : ℕ) → ((st'.stub t).deps ≡ (st.stub t).deps) × ((st'.stub t).reqs ≡ (st.stub t).reqs)
  pub same_complete : (t : ℕ) → (st'.stub t).complete ≡ (st.stub t).complete
  pub same_chain : (name : Bytes) → st'.chain name ≡ st.chain name
  pub others : (t : ℕ) → target ≢ some t → st'.stub t ≡ st.stub t
  pub reported :
      (t : ℕ)
      → target ≡ some t
      → ((st'.stub t).status ≡ pos status) × (st'.calls ≡ retrieve_fail t ∷ st.calls)

-- The stub that a failed response is for: the one of a GET request.
abbrev pub failed_stub : Store → Response → Option ℕ
failed_stub st r = if is_get r.method then find_stub st r.path r.conn else none

put_same :
    {A : Type 0} (f : Stub → A) (st : Store) (k : ℕ) (v : Stub)
    → f v ≡ f (st.stub k)
    → (t : ℕ) → f ((put_stub st k v).stub t) ≡ f (st.stub t)
put_same f st k v e t = elim (Bool-cases (t == k)) [
  | inl same ↦ let eq : t ≡ k = ground arith in rw same (e ∙ ap (λ x. f (st.stub x)) (sym eq))
  | inr other ↦ rw other refl
]

failed :
    (st : Store) (s status : ℕ)
    → IsFailure st
        (some s)
        status
        (emit (put_stub st s (record (st.stub s) { status = pos status })) (retrieve_fail s))
failed st s status =
    let v = record (st.stub s) { status = pos status } in
    record {
      same_graph =
          λ t. (put_same (λ b. b.deps) st s v refl t, put_same (λ b. b.reqs) st s v refl t);
      same_complete = put_same (λ b. b.complete) st s v refl;
      same_chain = λ name. refl;
      others = λ t ne. other t (λ e. ne (ap (λ x. some x) (sym e)));
      reported = λ t e. (at_target t (cc), ap (λ x. retrieve_fail x ∷ st.calls) (cc));
    }
  where
    other :
        (t : ℕ)
        → t ≢ s
        → (put_stub st s (record (st.stub s) { status = pos status })).stub t ≡ st.stub t
    other t ne = let e : (t == s) ≡ false = ground arith in rw e refl

    at_target :
        (t : ℕ)
        → s ≡ t
        → ((put_stub st s (record (st.stub s) { status = pos status })).stub t).status ≡ pos status
    at_target t eq = let e : (t == s) ≡ true = ground arith in rw e refl

nothing_failed : (st : Store) (status : ℕ) → IsFailure st none status st
nothing_failed st status = record {
  same_graph = λ t. (refl, refl);
  same_complete = λ t. refl;
  same_chain = λ name. refl;
  others = λ t ne. refl;
  reported = λ t e. cc;
}

abbrev pub is_good : ℕ → Bool
is_good status = status == 200 || status == 201 || status == 204 || status == 300 || status == 301

get-IsFailure :
    (st : Store) (r : Response) (target : Option ℕ)
    → find_stub st r.path r.conn ≡ target
    → is_get r.method ≡ true
    → IsFailure st target r.status (process_failure st r)
unfolding process_failure
get-IsFailure st r none e get = rw (process_failure, e) (nothing_failed st r.status)
get-IsFailure st r (some s) e get = rw (process_failure, e, get) (failed st s r.status)

other_failure : (st : Store) (r : Response) → is_get r.method ≡ false → process_failure st r ≡ st
unfolding process_failure
other_failure st r other = elim (Option-cases (find_stub st r.path r.conn)) [
  | inl e ↦ rw (process_failure, e) refl
  | inr (s, e) ↦ rw (process_failure, e, other) refl
]

process_failure-IsFailure :
    (st : Store) (r : Response) → IsFailure st (failed_stub st r) r.status (process_failure st r)
process_failure-IsFailure st r = elim (Bool-cases (is_get r.method)) [
  | inl get ↦ rw get (get-IsFailure st r (find_stub st r.path r.conn) refl get)
  | inr other ↦ rw (other, other_failure st r other) (nothing_failed st r.status)
]

-- A response with a status that is neither one of success nor one of a move makes `process_http`
-- return 0. The resource that a GET request asked for, if its stub is found, gets the status and a
-- RETRIEVE_FAIL event; all other stubs, the chains, and the dependents, requirements and completeness
-- of every stub stay as they were.
pub process_http-IsFailure :
    (fuel : ℕ) (env : Env) (objects : Objects) (dep : Store → ℕ → Option Store) (st : Store)
    (r : Response)
    → is_good r.status ≡ false
    → (st' : Store) × (process_http fuel env objects dep st (some r) ≡ some (0, st'))
      × IsFailure st (failed_stub st r) r.status st'
unfolding process_http
process_http-IsFailure fuel env objects dep st r bad =
    let (good, moved) = apart r.status bad in
    (process_failure st r, rw (good, moved) refl, process_failure-IsFailure st r)
  where
    apart :
        (n : ℕ)
        → is_good n ≡ false
        → ((n == 200 || n == 201 || n == 204) ≡ false) × ((n == 300 || n == 301) ≡ false)
    apart n h = (ground arith, ground arith)
