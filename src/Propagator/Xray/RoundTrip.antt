-- ===== src/Propagator/Xray/RoundTrip.antt =====
-- A span context in text, against what is read back.
use opentelemetry_rust_contr.Common.{
  ℕ, ◌%◌, ◌<◌, List, [], ◌∷◌, ◌++◌, ◌≡◌, refl, ap, ◌∙◌, map, false, some, inl, inr, length,
  length-append, append-nil, take, drop, length-drop, take-append-drop, All, ◌==◌, if◌then◌else◌,
  Bool-cases, append_assoc, arith,
}
use opentelemetry_rust_contr.Common.Text.{codes, str_eq}
use opentelemetry_rust_contr.Common.Chars.{
  Chars, Without, split_once-append, split_terminator, split_terminator-append,
  split_terminator_last, join, to_lowercase_ascii, to_uppercase_ascii, is_ascii_lowercase,
}
use opentelemetry_rust_contr.Common.Numerals.{IsHex, IsHex-Without}
use opentelemetry_rust_contr.Propagator.Api.{Api, ApiLaws, TraceStates, is_sampled, is_deferred}
use opentelemetry_rust_contr.Propagator.Xray.{
  header_parent_key, header_root_key, header_sampled_key, trim_start_matches, from_key_value_pair,
  title_case, filter_map_pairs, decision_of, Parsed, trace_id_of_parts, try_from_xray, xray_from,
  parse_part, parse_parts, decision_text,
}

-- Texts that are not empty and have no delimiter, joined with it, are split into themselves.
pub split_terminator-join :
    (c : ℕ) (first : Chars) (parts : List Chars)
    → All (λ (s : Chars). (0 < length s) × Without c s) (first ∷ parts)
    → split_terminator c (join (c ∷ []) (first ∷ parts)) ≡ first ∷ parts
unfolding join
split_terminator-join c first [] h = split_terminator_last c first h.0.0 h.0.1
split_terminator-join c first (next ∷ parts) h =
    split_terminator-append c first (join (c ∷ []) (next ∷ parts)) h.0.1
    ∙ ap (λ rest. first ∷ rest) (split_terminator-join c next parts h.1)

-- An entry of the header, and an entry of a trace state that can stand in it: the key has no
-- delimiter, keeps its form when its first letter is made a capital and all are made small again, and
-- is then no key of the header; the value does not begin with `=` and has no semicolon.
abbrev pub entry_text : Chars × Chars → Chars
entry_text (key, value) = key ++ (codes "=" ++ value)

pub record EntryOk (entry : Chars × Chars) : Type 0 where
  pub key_without_eq : Without b'=' (title_case entry.0)
  pub without_semicolon : Without b';' (entry_text entry)
  pub lowercase : map to_lowercase_ascii (title_case entry.0) ≡ entry.0
  pub not_root : str_eq (title_case entry.0) header_root_key ≡ false
  pub not_parent : str_eq (title_case entry.0) header_parent_key ≡ false
  pub not_sampled : str_eq (title_case entry.0) header_sampled_key ≡ false
  pub value_start : trim_start_matches b'=' entry.1 ≡ entry.1

-- A pair of a key without `=` and a value that does not begin with one.
pub pair_lem :
    (key value : Chars)
    → Without b'=' key
    → trim_start_matches b'=' value ≡ value
    → from_key_value_pair (key ++ (codes "=" ++ value)) ≡ some (key, value)
unfolding from_key_value_pair
pair_lem key value h start = rw (split_once-append b'=' [] key value h) (rw start)

pub titled : Chars × Chars → Chars × Chars
titled (key, value) = (title_case key, value)

title_case-entry :
    (key value : Chars)
    → title_case (key ++ (codes "=" ++ value)) ≡ title_case key ++ (codes "=" ++ value)
unfolding title_case to_uppercase_ascii is_ascii_lowercase
title_case-entry [] value = refl
title_case-entry (c ∷ key) value = refl

title_case-Without : (s : Chars) → Without b';' s → Without b';' (title_case s)
unfolding title_case to_uppercase_ascii is_ascii_lowercase
title_case-Without [] h = tt
title_case-Without (c ∷ s) h = (ground arith, h.1)

length-title_case : (s : Chars) → length (title_case s) ≡ length s
unfolding title_case
length-title_case [] = refl
length-title_case (c ∷ s) = refl

entry_length : (e : Chars × Chars) → 0 < length (entry_text e)
entry_length (key, value) = omega (arith, length-append key (codes "=" ++ value))

-- The parts of the header that the entries make, before and after `title_case`.
pub entries_split :
    (kvs : List (Chars × Chars))
    → All EntryOk kvs
    → All (λ (s : Chars). (0 < length s) × Without b';' s) (map entry_text kvs)
entries_split [] h = tt
entries_split (e ∷ kvs) h = ((entry_length e, h.0.without_semicolon), entries_split kvs h.1)

abbrev pub titled_parts : List (Chars × Chars) → List Chars
titled_parts kvs = map title_case (map entry_text kvs)

pub titled_split :
    (kvs : List (Chars × Chars))
    → All EntryOk kvs
    → All (λ (s : Chars). (0 < length s) × Without b';' s) (titled_parts kvs)
titled_split [] h = tt
titled_split (e ∷ kvs) h = (
  (
    omega (arith, entry_length e, length-title_case (entry_text e)),
    title_case-Without (entry_text e) h.0.without_semicolon,
  ),
  titled_split kvs h.1,
)

pub filter_map-titled :
    (kvs : List (Chars × Chars))
    → All EntryOk kvs
    → filter_map_pairs (titled_parts kvs) ≡ map titled kvs
unfolding filter_map_pairs titled
filter_map-titled [] h = refl
filter_map-titled ((key, value) ∷ kvs) h =
    let pair : from_key_value_pair (title_case (key ++ (codes "=" ++ value)))
        ≡ some (title_case key, value) =
      rw (title_case-entry key value)
        (pair_lem (title_case key) value h.0.key_without_eq h.0.value_start) in
    rw (pair, filter_map_pairs) (rw (filter_map-titled kvs h.1))

module _ {TraceId SpanId TraceState SpanContext : Type 0}
    (api : Api TraceId SpanId TraceState SpanContext) (states : TraceStates TraceState) where
  pub parse_parts-titled :
      (st : Parsed TraceId SpanId) (kvs : List (Chars × Chars))
      → All EntryOk kvs
      → parse_parts api states st (map titled kvs) ≡ some (record st { kv_vec = st.kv_vec ++ kvs })
  unfolding parse_parts titled
  parse_parts-titled st [] h = rw (append-nil st.kv_vec)
  parse_parts-titled st ((key, value) ∷ kvs) h =
      let one : parse_part api states st (title_case key) value
          ≡ some (record st { kv_vec = st.kv_vec ++ (key, value) ∷ [] }) =
        unfold parse_part in
        rw (h.0.not_root, h.0.not_parent, h.0.not_sampled) (rw (h.0.lowercase)) in
      let rest =
        parse_parts-titled (record st { kv_vec = st.kv_vec ++ (key, value) ∷ [] }) kvs h.1 in
      rw one (rest ∙ rw (append_assoc st.kv_vec ((key, value) ∷ []) kvs))

pub All-front : (s t : Chars) → All IsHex (s ++ t) → All IsHex s
All-front [] t h = tt
All-front (c ∷ s) t h = (h.0, All-front s t h.1)

pub All-back : (s t : Chars) → All IsHex (s ++ t) → All IsHex t
All-back [] t h = h
All-back (c ∷ s) t h = All-back s t h.1

pub start_hex : (s : Chars) → All IsHex s → trim_start_matches b'=' s ≡ s
unfolding trim_start_matches
start_hex [] h = refl
start_hex (c ∷ s) h = ground arith

pub decision_of-text :
    (flags : ℕ)
    → (decision_of (decision_text flags) ≡ (if is_deferred flags then 2 else flags % 2))
      × (trim_start_matches b'=' (decision_text flags) ≡ decision_text flags)
      × Without b';' (decision_text flags)
      × (0 < length (decision_text flags))
unfolding decision_of decision_text str_eq is_sampled trim_start_matches
decision_of-text flags = elim (Bool-cases (is_deferred flags)) [
  | inl e ↦ rw e (refl, refl, (refl, tt), omega arith)
  | inr e ↦ elim (Bool-cases (flags % 2 == 1)) [
    | inl odd ↦ rw (e, odd) (ground arith, refl, (refl, tt), omega arith)
    | inr even ↦ rw (e, even) (ground arith, refl, (refl, tt), omega arith)
  ]
]

module _ {TraceId SpanId TraceState SpanContext : Type 0}
    (api : Api TraceId SpanId TraceState SpanContext) (laws : ApiLaws api)
    (states : TraceStates TraceState) where
  pub try_from-xray_from :
      (t : TraceId)
      → api.is_invalid_trace_id t ≡ false
      → try_from_xray api states (xray_from api states t) ≡ some t
  try_from-xray_from t valid =
      let hex = api.trace_id_to_hex t in
      let front = take 8 hex in
      let back = drop 8 hex in
      let whole : front ++ back ≡ hex = take-append-drop 8 hex in
      let is_hex_all : All IsHex (front ++ back) = rw whole (laws.trace_id_hex t) in
      let front_hex = All-front front back is_hex_all in
      let back_hex = All-back front back is_hex_all in
      let pos : 0 < length back = omega (arith, length-drop 8 hex, laws.trace_id_length t) in
      unfold try_from_xray xray_from in
      rw (split_terminator-append b'-' (codes "1") (front ++ b'-' ∷ back) (refl, tt)) (
        rw
          (
            split_terminator-append b'-' front back (IsHex-Without b'-' front refl front_hex),
            split_terminator_last b'-' back pos (IsHex-Without b'-' back refl back_hex),
          )
          (unfold trace_id_of_parts in rw (whole, laws.trace_id_read t) (rw valid)))
