-- ===== src/Uri/Host.antt =====
-- What parse_uri takes for the name of a host.
use epri_client.Prelude.{
  ℕ, ◌≡◌, refl, sym, ◌∙◌, ap, ◌||◌, true, false, Option, none, some, [], ◌∷◌, ◌++◌, ◌==◌, All,
  length, append-nil, append_assoc,
}
use epri_client.Util.{Bytes, streq}
use epri_client.Exi.Strings.{c_string}
use epri_client.Uri.{
  Uri, plain, name_loop, path_loop, parse_uri, parse_reference, scheme_loop, hier_part, authority,
  parse_host, path_behind, with_scheme, parse_port, streq,
}
use epri_client.Uri.Path.{pchar-plain, none_behind}

-- A character that `pchar` takes and that does not end a name; `/` is one.
pub record IsNameChar (c : ℕ) : Type 0 where
  pub taken : plain c ≡ true
  pub inside : (c == b'@' || c == b':') ≡ false
  pub present : (c == 0) ≡ false

name_loop-plain : (s name : Bytes) → All IsNameChar s → name_loop 0 name s ≡ (name ++ s, [])
unfolding name_loop
name_loop-plain [] name h = ap (λ (l : Bytes). (l, [])) (sym (append-nil name))
name_loop-plain (c ∷ s) name (hc, h) =
    rw (name_loop, hc.inside, pchar-plain c s hc.taken, none_behind (length s))
      (name_loop-plain s (name ++ c ∷ []) h
        ∙ ap (λ (l : Bytes). (l, [])) (append_assoc name (c ∷ []) s))

whole_string : (s : Bytes) → All IsNameChar s → c_string s ≡ s
unfolding c_string
whole_string [] h = refl
whole_string (c ∷ s) (hc, h) = rw (hc.present, whole_string s h) refl

host_name :
    (parse_address : ℕ → Bytes → Option (ℕ × Bytes)) (u : Uri) (c : ℕ) (s : Bytes)
    → All IsNameChar (c ∷ s)
    → parse_address u.port (c ∷ s) ≡ none
    → parse_host parse_address u (c ∷ s) ≡ some (record u { name = some (c ∷ s) }, [])
unfolding parse_host parse_port
host_name parse_address u c s h e =
    rw (parse_host, e, name_loop-plain (c ∷ s) [] h, whole_string (c ∷ s) h) refl

-- Behind `http://`, a text that is no address and has no `@`, `:` or `?` is the name of the host as a
-- whole, with the `/` and the path that follow the name, and the path of the URI is empty.
pub parse_uri-host :
    (parse_address : ℕ → Bytes → Option (ℕ × Bytes)) (u : Uri) (c : ℕ) (s : Bytes)
    → All IsNameChar (c ∷ s)
    → parse_address 80 (c ∷ s) ≡ none
    → parse_uri parse_address u false (b'h' ∷ b't' ∷ b't' ∷ b'p' ∷ b':' ∷ b'/' ∷ b'/' ∷ c ∷ s)
      ≡ some (
        record u {
          scheme = some (b'h' ∷ b't' ∷ b't' ∷ b'p' ∷ []);
          port = 80;
          name = some (c ∷ s);
          host = none;
          path = some [];
          query = none;
        },
        [],
      )
unfolding parse_uri parse_reference scheme_loop hier_part authority path_behind with_scheme
    path_loop streq c_string
parse_uri-host parse_address u c s h e =
    let u' : Uri = record u {
      scheme = some (b'h' ∷ b't' ∷ b't' ∷ b'p' ∷ []);
      port = 80;
      name = none;
      path = none;
      query = none;
      host = none;
    } in
    ap (path_behind parse_address) (host_name parse_address u' c s h e)
