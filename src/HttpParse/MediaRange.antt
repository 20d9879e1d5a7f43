-- ===== src/HttpParse/MediaRange.antt =====
-- `media_range` of http_parse.c: a media type with its parameters and its quality.
use epri_client.Prelude.{
  ℕ, zero, suc, ◌+◌, ◌*◌, ◌||◌, Option, none, some, [], ◌∷◌, ◌==◌, if◌then◌else◌, bit_and, length,
}
use epri_client.Util.{Bytes, streq, to_lower}
use epri_client.HttpParse.{value, refused, overrun, token, pvalue, qvalue, ows, hws}

-- The array `param` is a function of the index; `none` is a null pointer.
pub record MediaType : Type 0 where
  pub type : Bytes
  pub sub : Bytes
  pub param : ℕ → Option Bytes
  pub quality : ℕ

-- The states 0 to 7 of the machine. State 3 goes on to the state 4 at once; the name and the value of
-- a parameter are kept in the states that know them.
pub data MediaState : Type 0 where
  type_start slash subtype parameter parameter_name : MediaState
  parameter_value : Bytes → MediaState
  completed : Bytes → Bytes → MediaState

-- Where the machine goes on, or what it returns: the type and the rest of the data, `NULL`, or a
-- pointer behind the NUL.
pub data MediaStep : Type 0 where
  go_on : MediaState → MediaType → ℕ → Bytes → MediaStep
  done : MediaType → Bytes → MediaStep
  no_media : MediaStep
  behind_end : MediaStep

abbrev pub set_param : (ℕ → Option Bytes) → ℕ → Bytes → ℕ → Option Bytes
set_param param i v j = if j == i then some v else param j

-- State 6 behind the `=`.
unfoldable pub parameter_read : MediaType → ℕ → Bytes → Bytes → MediaStep
parameter_read m i name rest =
    let quality : MediaStep = elim (qvalue rest) [
      | none ↦ no_media
      | some (q, after) ↦ go_on parameter (record m { quality = q }) i after
    ] in
    let other : MediaStep = elim (pvalue rest) [
      | value v after ↦ go_on (completed (to_lower name) v) m i after
      | refused ↦ no_media
      | overrun ↦ behind_end
    ] in
    if streq (to_lower name) (b'q' ∷ []) then quality else other

unfoldable pub media_step : MediaState → MediaType → ℕ → Bytes → MediaStep
media_step type_start m i [] = no_media
media_step type_start m i (c ∷ rest) =
    let typed : MediaStep = elim (token (c ∷ rest)) [
      | none ↦ no_media
      | some (t, after) ↦ go_on slash (record m { type = t; quality = 1000 }) i after
    ] in
    if hws c || c == b',' then go_on type_start m i rest else typed
media_step slash m i [] = no_media
media_step slash m i (c ∷ rest) = if c == b'/' then go_on subtype m i rest else no_media
media_step subtype m i text = elim (token text) [
  | none ↦ no_media
  | some (t, after) ↦ go_on parameter (record m { sub = t }) i after
]
media_step parameter m i [] = done m []
media_step parameter m i (c ∷ rest) =
    if c == b','
    then done m rest
    else if hws c
    then go_on parameter m i rest
    else if c == b';'
    then go_on parameter_name m i rest
    else no_media
media_step parameter_name m i text = elim (token (ows text)) [
  | none ↦ no_media
  | some (t, after) ↦ go_on (parameter_value t) m i after
]
media_step (parameter_value name) m i [] = no_media
media_step (parameter_value name) m i (c ∷ rest) =
    if c == b'=' then parameter_read m i name rest else no_media
media_step (completed name v) m i text =
    go_on parameter (record m { param = set_param (set_param m.param i name) (i + 1) v })
      (bit_and (i + 2) 7) text

-- The loop. `none` is fuel used up.
unfoldable pub media_loop : ℕ → MediaState → MediaType → ℕ → Bytes → Option MediaStep
media_loop zero state m i text = none
media_loop (suc fuel) state m i text = elim (media_step state m i text) [
  | go_on state' m' i' text' ↦ media_loop fuel state' m' i' text'
  | done m' rest ↦ some (done m' rest)
  | no_media ↦ some no_media
  | behind_end ↦ some behind_end
]

-- Two rounds are given for each byte and one for the end: a round takes a byte, or is the one round
-- behind the value of a parameter.
unfoldable pub media_range : MediaType → Bytes → Option MediaStep
media_range m text =
    media_loop (2 * length text + 1) type_start (record m { param = λ j. none }) 0 text
