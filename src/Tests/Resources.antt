-- ===== src/Tests/Resources.antt =====
-- Runs of retrieve.c, named.c and se_object.c.
use epri_client.Prelude.{
  ℕ, zero, suc, ◌-◌, ◌≡◌, refl, arith, Bool, true, false, length, ◌≤◌, none, some, List, [], ◌∷◌,
  if◌then◌else◌, ◌⊎◌,
}
use epri_client.Prelude.Int.{pos}
use epri_client.Util.{Bytes, streq}
use epri_client.LinkedList.{find_by_data}
use epri_client.LinkedList.Sets.{Distinct}
use epri_client.Retrieve.{Stub, Store, Env, new_stub, emit, resource_remove}
use epri_client.Retrieve.Graph.{
  dep_complete, dep_reset, complete_deps, mark_complete, complete_one, enter_req, enter_req_as,
  drop_old, links_behind,
}
use epri_client.Schedule.{clear_bits}
use epri_client.Retrieve.Reset.{Reach, IsReset, deps_of, IsAcyclic, dep_reset-IsReset}
use epri_client.Retrieve.Progress.{IsProgress, NoUpdate, emitted, unchanged}
use epri_client.Retrieve.Complete.{IsFreed, IsQuiet, IsGraph, dep_complete-IsProgress}
use epri_client.Retrieve.Process.{Objects, Response, http_get, process_http}
use epri_client.Retrieve.Errors.{IsFailure, failed_stub, process_http-IsFailure}
use epri_client.Named.{Named, get_by_name}
use epri_client.Named.Lookup.{Got, get_by_name-Got}
use epri_client.SeObject.{compare_uint, is_positive, is_equal}
use epri_client.SeObject.Order.{compare_uint-low_bits}

-- A server without lists and events; a completion routine asks for one event.
abbrev plain : Env
plain = record {
  is_list = λ t. false;
  is_event = λ t. false;
  find_list_info = λ t. none;
  before = λ info a b. false;
  resolve = λ conn href. some (conn, href);
  print = λ n. n ∷ [];
  now = 0;
  se_time = 0;
  event_end = λ n. 0;
  on_complete = λ st s. emit st (resource_remove s);
}

abbrev no_objects : Objects
no_objects = record { all = λ n. 0; results = λ n. 0; items = λ n. []; href = λ n. none }

abbrev path : ℕ → Bytes
path n = b'/' ∷ n ∷ []

abbrev blank : ℕ → Stub
blank n = new_stub plain (path n) (pos 0) 7

-- The stubs 1 and 2 are required by 2 and 3.
abbrev chain_stub : ℕ → Stub
chain_stub zero = blank 0
chain_stub (suc zero) = record (blank 1) { deps = 2 ∷ []; flag = 1 }
chain_stub (suc (suc zero)) = record (blank 2) { deps = 3 ∷ []; flags = 1; flag = 2 }
chain_stub (suc (suc (suc zero))) = record (blank 3) { flags = 2 }
chain_stub (suc (suc (suc (suc n)))) = blank 4

abbrev three_stubs : Store
three_stubs = record {
  next = 4;
  stub = chain_stub;
  chain = λ name. if streq name (path 1) then 1 ∷ [] else [];
  calls = [];
}

abbrev height : ℕ → ℕ
height n = 4 - n

three_stubs-IsAcyclic : IsAcyclic (deps_of three_stubs) height
unfolding find_by_data
three_stubs-IsAcyclic zero d h = cc
three_stubs-IsAcyclic (suc zero) d h = ground arith
three_stubs-IsAcyclic (suc (suc zero)) d h = ground arith
three_stubs-IsAcyclic (suc (suc (suc zero))) d h = cc
three_stubs-IsAcyclic (suc (suc (suc (suc n)))) d h = cc

dep_reset-IsReset_example :
    (st : Store) × (dep_reset 4 three_stubs 1 ≡ some st)
    × IsReset three_stubs (Reach (deps_of three_stubs) 1) st
dep_reset-IsReset_example =
    dep_reset-IsReset 4 three_stubs height 1 three_stubs-IsAcyclic (omega arith)

plain-IsQuiet : IsQuiet plain
plain-IsQuiet st s = emitted (resource_remove s) (unchanged st (λ t h. h))

three_stubs-Distinct : (t : ℕ) → Distinct (deps_of three_stubs t)
unfolding find_by_data
three_stubs-Distinct zero = tt
three_stubs-Distinct (suc zero) = (refl, tt)
three_stubs-Distinct (suc (suc zero)) = (refl, tt)
three_stubs-Distinct (suc (suc (suc zero))) = tt
three_stubs-Distinct (suc (suc (suc (suc n)))) = tt

three_stubs_few : (t : ℕ) → length (deps_of three_stubs t) ≤ 1
three_stubs_few zero = omega arith
three_stubs_few (suc zero) = omega arith
three_stubs_few (suc (suc zero)) = omega arith
three_stubs_few (suc (suc (suc zero))) = omega arith
three_stubs_few (suc (suc (suc (suc n)))) = omega arith

three_stubs-NoUpdate : NoUpdate three_stubs
three_stubs-NoUpdate zero = refl
three_stubs-NoUpdate (suc zero) = refl
three_stubs-NoUpdate (suc (suc zero)) = refl
three_stubs-NoUpdate (suc (suc (suc zero))) = refl
three_stubs-NoUpdate (suc (suc (suc (suc n)))) = refl

three_stubs-IsGraph : IsGraph three_stubs height 1
three_stubs-IsGraph = record {
  acyclic = three_stubs-IsAcyclic;
  distinct = three_stubs-Distinct;
  few = three_stubs_few;
  no_update = three_stubs-NoUpdate;
}

dep_complete-IsProgress_example :
    (st : Store) × (dep_complete 4 1 plain three_stubs 1 ≡ some st)
    × IsProgress three_stubs
        (λ t. (t ≡ 1) ⊎ ((find_by_data (deps_of three_stubs 1) t ≡ true) × IsFreed three_stubs 1 t))
        st
dep_complete-IsProgress_example =
    dep_complete-IsProgress 4 1 plain three_stubs height 1 plain-IsQuiet three_stubs-IsGraph
      (omega arith)

-- The completion of 1 goes on to 3.
dep_complete_run :
    elim (dep_complete 4 1 plain three_stubs 1) as (λ x. Bool) [
      | none ↦ false
      | some st ↦ (st.stub 3).complete
    ]
    ≡ true
unfolding dep_complete complete_deps mark_complete complete_one enter_req enter_req_as clear_bits
    drop_old links_behind
dep_complete_run = refl

-- The answer 404 to a GET request for the stub 1.
abbrev not_found : Response
not_found = record {
  conn = 7;
  status = 404;
  method = http_get;
  context = some 1;
  path = path 1;
  body = none;
  location = none;
}

process_http-IsFailure_example :
    (st : Store) × (process_http 4 plain no_objects (λ st s. some st) three_stubs (some not_found)
      ≡ some (0, st))
    × IsFailure three_stubs (failed_stub three_stubs not_found) 404 st
process_http-IsFailure_example =
    process_http-IsFailure 4 plain no_objects (λ st s. some st) three_stubs not_found refl

abbrev pumps : List Named
pumps = record { name = some (b'p' ∷ []); object = 5 } ∷ []

get_by_name-Got_example : Got pumps (b'q' ∷ []) (get_by_name pumps (b'q' ∷ []) 9)
get_by_name-Got_example = get_by_name-Got pumps (b'q' ∷ []) 9

-- Two SFDIs that are 2 ^ 32 apart.
compare_uint-low_bits_example :
    (is_positive (compare_uint 0x1_0000_0007 7) ≡ false)
    × (is_equal (compare_uint 0x1_0000_0007 7) ≡ true)
compare_uint-low_bits_example = compare_uint-low_bits 0x1_0000_0007 7
