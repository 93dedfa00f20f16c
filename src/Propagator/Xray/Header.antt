-- ===== src/Propagator/Xray/Header.antt =====
-- The header as a whole: a span context that is printed, against what is read back.
use opentelemetry_rust_contr.Common.{
  ◌%◌, ◌<◌, List, [], ◌∷◌, ◌++◌, ◌≡◌, refl, map, true, false, some, length, length-append,
  append-nil, take, drop, take-append-drop, All, All-append, ◌==◌, ◌>>=◌, if◌then◌else◌, arith,
}
use opentelemetry_rust_contr.Common.Text.{codes, str_eq}
use opentelemetry_rust_contr.Common.Chars.{
  Chars, Without, split_terminator, split_parts, terminated, last_part, join,
}
use opentelemetry_rust_contr.Common.Numerals.{IsHex, IsHex-Without}
use opentelemetry_rust_contr.Propagator.Api.{Api, ApiLaws, TraceStates, is_deferred}
use opentelemetry_rust_contr.Propagator.Xray.{
  trim_start_matches, from_key_value_pair, title_case, filter_map_pairs, Parsed, xray_from,
  parse_part, parse_parts, context_of, span_context_from_str, decision_text, state_header,
  span_context_to_string,
}
use opentelemetry_rust_contr.Propagator.Xray.RoundTrip.{
  EntryOk, entry_text, titled, titled_parts, entries_split, titled_split, split_terminator-join,
  pair_lem, filter_map-titled, parse_parts-titled, All-front, All-back, start_hex, decision_of-text,
  try_from-xray_from,
}

-- A text that is joined from texts of which the first is not empty.
join_nonempty :
    (first : Chars) (rest : List Chars)
    → 0 < length first
    → (length (join (codes ";") (first ∷ rest)) == 0) ≡ false
unfolding join
join_nonempty first [] h = ground arith
join_nonempty first (next ∷ rest) h =
    let sum = length-append first (codes ";" ++ join (codes ";") (next ∷ rest)) in ground arith

filter_map_next :
    {pair : Chars × Chars} {rest : List (Chars × Chars)} (part : Chars) (parts : List Chars)
    → from_key_value_pair part ≡ some pair
    → filter_map_pairs parts ≡ rest
    → filter_map_pairs (part ∷ parts) ≡ pair ∷ rest
unfolding filter_map_pairs
filter_map_next part parts h e = rw (h, filter_map_pairs) (rw e)

module _ {TraceId SpanId TraceState SpanContext : Type 0}
    (api : Api TraceId SpanId TraceState SpanContext) (laws : ApiLaws api)
    (states : TraceStates TraceState) where
  root_part : SpanContext → Chars
  root_part c = codes "Root" ++ (codes "=" ++ xray_from api states (api.trace_id c))

  parent_part : SpanContext → Chars
  parent_part c = codes "Parent" ++ (codes "=" ++ api.span_id_to_hex (api.span_id c))

  sampled_part : SpanContext → Chars
  sampled_part c = codes "Sampled" ++ (codes "=" ++ decision_text (api.trace_flags c))

  -- The parts of the header.
  header_parts : SpanContext → List (Chars × Chars) → List Chars
  header_parts c kvs = root_part c ∷ parent_part c ∷ sampled_part c ∷ titled_parts kvs

  -- The entries of the trace state, as it is printed.
  abbrev pub Prints : SpanContext → List (Chars × Chars) → Type 0
  Prints c kvs =
      states.header_delimited (api.trace_state c) (codes "=") (codes ";")
      ≡ join (codes ";") (map entry_text kvs)

  state_header_lem :
      (c : SpanContext) (kvs : List (Chars × Chars))
      → All EntryOk kvs
      → Prints c kvs
      → state_header api states (api.trace_state c) ≡ join (codes ";") (titled_parts kvs)
  unfolding state_header
  state_header_lem c [] ok e =
      rw e (unfold join split_terminator split_parts terminated last_part in refl)
  state_header_lem c (kv ∷ kvs) ok e = rw e (
      rw (
        split_terminator-join b';' (entry_text kv) (map entry_text kvs)
          (entries_split (kv ∷ kvs) ok)))

  printed :
      (c : SpanContext) (kvs : List (Chars × Chars))
      → api.is_valid c ≡ true
      → All EntryOk kvs
      → Prints c kvs
      → span_context_to_string api states c ≡ some (join (codes ";") (header_parts c kvs))
  unfolding header_parts root_part parent_part sampled_part
  printed c [] valid ok e =
      unfold span_context_to_string in
      rw (valid, state_header_lem c [] ok e)
        (unfold join in rw (append-nil (decision_text (api.trace_flags c))))
  printed c (kv ∷ kvs) valid ok e =
      let full =
        join_nonempty (title_case (entry_text kv)) (titled_parts kvs)
          (titled_split (kv ∷ kvs) ok).0.0 in
      unfold span_context_to_string in
      rw (valid, state_header_lem c (kv ∷ kvs) ok e) (rw full (unfold join in refl))

  parts_split :
      (c : SpanContext) (kvs : List (Chars × Chars))
      → All EntryOk kvs
      → All (λ (s : Chars). (0 < length s) × Without b';' s) (header_parts c kvs)
  unfolding header_parts root_part parent_part sampled_part xray_from
  parts_split c kvs ok =
      let t = api.trace_id_to_hex (api.trace_id c) in
      let s = api.span_id_to_hex (api.span_id c) in
      let whole : take 8 t ++ drop 8 t ≡ t = take-append-drop 8 t in
      let t_hex : All IsHex (take 8 t ++ drop 8 t) =
        rw whole (laws.trace_id_hex (api.trace_id c)) in
      let front = IsHex-Without b';' (take 8 t) refl (All-front (take 8 t) (drop 8 t) t_hex) in
      let back = IsHex-Without b';' (drop 8 t) refl (All-back (take 8 t) (drop 8 t) t_hex) in
      let (_, _, d, _) = decision_of-text (api.trace_flags c) in
      let dash : All (λ d. (d == b';') ≡ false) (b'-' ∷ drop 8 t) = (refl, back) in
      (
        (
          omega arith,
          (
            refl,
            (
              refl,
              (
                refl,
                (
                  refl,
                  (
                    refl,
                    (
                      refl,
                      (
                        refl,
                        All-append (λ d. (d == b';') ≡ false) (take 8 t) (b'-' ∷ drop 8 t) front
                            dash,
                      ),
                    ),
                  ),
                ),
              ),
            ),
          ),
        ),
        (
          (
            omega arith,
            (
              refl,
              (
                refl,
                (
                  refl,
                  (
                    refl,
                    (
                      refl,
                      (refl, (refl, IsHex-Without b';' s refl (laws.span_id_hex (api.span_id c)))),
                    ),
                  ),
                ),
              ),
            ),
          ),
          (
            (omega arith, (refl, (refl, (refl, (refl, (refl, (refl, (refl, (refl, d))))))))),
            titled_split kvs ok,
          ),
        ),
      )

  pairs :
      (c : SpanContext) (kvs : List (Chars × Chars))
      → All EntryOk kvs
      → filter_map_pairs (header_parts c kvs)
        ≡ (codes "Root", xray_from api states (api.trace_id c))
          ∷ (codes "Parent", api.span_id_to_hex (api.span_id c))
          ∷ (codes "Sampled", decision_text (api.trace_flags c))
          ∷ map titled kvs
  unfolding header_parts root_part parent_part sampled_part
  pairs c kvs ok =
      let root =
        pair_lem (codes "Root") (xray_from api states (api.trace_id c))
          (refl, (refl, (refl, (refl, tt)))) (unfold trim_start_matches xray_from in refl) in
      let s = api.span_id_to_hex (api.span_id c) in
      let parent =
        pair_lem (codes "Parent") s (refl, (refl, (refl, (refl, (refl, (refl, tt))))))
          (start_hex s (laws.span_id_hex (api.span_id c))) in
      let sampled =
        pair_lem (codes "Sampled") (decision_text (api.trace_flags c))
          (refl, (refl, (refl, (refl, (refl, (refl, (refl, tt)))))))
          (decision_of-text (api.trace_flags c)).1 in
      filter_map_next (root_part c) (parent_part c ∷ sampled_part c ∷ titled_parts kvs) root (
        filter_map_next (parent_part c) (sampled_part c ∷ titled_parts kvs) parent
          (filter_map_next (sampled_part c) (titled_parts kvs) sampled (filter_map-titled kvs ok)))

  -- A valid span context whose trace state has entries that can stand in the header, and are
  -- printed in order with `=` and `;`, is printed as a header that is read back as the span
  -- context of the same ids and entries, that is remote, and whose flags are 2 when the decision
  -- was deferred and else the sampled bit.
  pub xray-read-print :
      (c : SpanContext) (kvs : List (Chars × Chars)) (state : TraceState)
      → api.is_valid c ≡ true
      → All EntryOk kvs
      → Prints c kvs
      → states.from_key_value kvs ≡ some state
      → (do text ← span_context_to_string api states c; span_context_from_str api states text)
        ≡ some (
            api.new
              (api.trace_id c)
              (api.span_id c)
              (if is_deferred (api.trace_flags c) then 2 else api.trace_flags c % 2)
              true
              state)
  unfolding header_parts
  xray-read-print c kvs state valid ok prints built =
      let t = api.trace_id c in
      let s = api.span_id c in
      let good = laws.valid_trace_id c valid in
      let start : Parsed TraceId SpanId = record {
        trace_id = api.invalid_trace_id;
        parent_segment_id = api.invalid_span_id;
        sampling_decision = 2;
        kv_vec = [];
      } in
      let flags = if is_deferred (api.trace_flags c) then 2 else api.trace_flags c % 2 in
      let st : Parsed TraceId SpanId = record {
        trace_id = t;
        parent_segment_id = s;
        sampling_decision = flags;
        kv_vec = [];
      } in
      let turns : parse_parts api states start (
            (codes "Root", xray_from api states t)
            ∷ (codes "Parent", api.span_id_to_hex s)
            ∷ (codes "Sampled", decision_text (api.trace_flags c))
            ∷ map titled kvs)
          ≡ some (record st { kv_vec = kvs }) =
        unfold parse_parts parse_part str_eq in
        rw
          (
            try_from-xray_from api laws states t good,
            laws.span_id_read s,
            (decision_of-text (api.trace_flags c)).0,
          )
          (parse_parts-titled api states st kvs ok) in
      rw (printed c kvs valid ok prints) (
        unfold span_context_from_str in
        rw
          (split_terminator-join b';' (root_part c)
            (parent_part c ∷ sampled_part c ∷ titled_parts kvs) (parts_split c kvs ok))
          (rw (pairs c kvs ok) (rw turns (unfold context_of in rw (built, good)))))
