-- ===== src/Tests/Tables.antt =====
-- Runs of hash.c.
use epri_client.Prelude.{ℕ, ◌≡◌, refl, Option, none, some, ◌==◌, [], ◌∷◌}
use epri_client.Hash.{
  HashTable, popcount64, bit_rank, sg_insert, sg_empty, hash_init, hash_find_loop, hash_find,
  hash_get, hash_insert, hash_resize, hash_put, put_element, entries, entries_in, string_hash,
  hash_bytes,
}

-- Keys are numbers that hash to themselves, and an item is its own key.
abbrev get_number : Option HashTable → ℕ → Option ℕ
get_number none key = none
get_number (some ht) key = hash_get (λ k. k) (λ a b. a == b) (λ x. x) ht key

abbrev put_number : Option HashTable → ℕ → Option HashTable
put_number none item = none
put_number (some ht) item = hash_put (λ k. k) (λ a b. a == b) (λ x. x) 3 ht item

popcount64_run : popcount64 0xff00000000000001 ≡ 9
unfolding popcount64
popcount64_run = refl

string_hash_run : string_hash (b'a' ∷ []) ≡ 177670
unfolding string_hash hash_bytes
string_hash_run = refl

-- Two of three places in a table of four.
two_found : get_number (put_number (put_number (some (hash_init none 4)) 1) 2) 1 ≡ some 1
unfolding popcount64 bit_rank sg_insert sg_empty hash_init hash_find_loop hash_find hash_get
    hash_insert hash_resize hash_put put_element entries entries_in
two_found = refl

-- Where the second item makes a table of two grow, neither item is found again.
none_found_after_resize :
    get_number (put_number (put_number (some (hash_init none 2)) 1) 2) 1 ≡ none
unfolding popcount64 bit_rank sg_insert sg_empty hash_init hash_find_loop hash_find hash_get
    hash_insert hash_resize hash_put put_element entries entries_in
none_found_after_resize = refl
