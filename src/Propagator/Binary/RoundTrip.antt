-- ===== src/Propagator/Binary/RoundTrip.antt =====
-- Deserialization of what is serialized, in binary and in base64.
use opentelemetry_rust_contr.Common.{
  ℕ, suc, ◌+◌, [], ◌∷◌, ◌++◌, Bool, true, false, not, ◌&&◌, ◌≡◌, refl, ap, ◌∙◌, sym, Option, some,
  inl, inr, length, length-append, take, drop, take_append, drop_append, replicate, leb, ◌==◌,
  ==-refl, Bool-cases, if◌then◌else◌, arith,
}
use opentelemetry_rust_contr.Common.Bytes.{Bytes}
use opentelemetry_rust_contr.Propagator.Binary.{
  SpanContexts, copy_at, starts, read_field, read_span_id, read_trace_flags, serialize_into_bytes,
  checked, deserialize_from_bytes, serialize_into_base64, deserialize_from_base64,
}

-- An id of zeros only is no id.
unfoldable pub all_zero : Bytes → Bool
all_zero [] = true
all_zero (b ∷ s) = b == 0 && all_zero s

-- What the documentation of opentelemetry says of span contexts: ids have 16 and 8 bytes, a context is
-- valid if neither id is zero, and `new` keeps the ids.
pub record SpanContextLaws {SpanContext : Type 0} (api : SpanContexts SpanContext) : Type 0 where
  pub length_trace_id : (c : SpanContext) → length (api.trace_id c) ≡ 16
  pub length_span_id : (c : SpanContext) → length (api.span_id c) ≡ 8
  pub is_valid_ids :
      (c : SpanContext)
      → api.is_valid c ≡ (not (all_zero (api.trace_id c)) && not (all_zero (api.span_id c)))
  pub trace_id_new :
      (t s : Bytes) (f : ℕ) (remote : Bool)
      → length t ≡ 16
      → length s ≡ 8
      → api.trace_id (api.new t s f remote) ≡ t
  pub span_id_new :
      (t s : Bytes) (f : ℕ) (remote : Bool)
      → length t ≡ 16
      → length s ≡ 8
      → api.span_id (api.new t s f remote) ≡ s

-- A copy behind a front leaves the front alone.
copy_at_sum :
    (p : Bytes) (k : ℕ) (s x : Bytes) → copy_at (length p + k) s (p ++ x) ≡ p ++ copy_at k s x
unfolding copy_at
copy_at_sum [] k s x = let e : 0 + k ≡ k = omega arith in rw e
copy_at_sum (b ∷ p) k s x =
    let e : suc (length p) + k ≡ suc (length p + k) = omega arith in
    let f : suc (length p + k) + length s ≡ suc (length p + k + length s) = omega arith in
    rw e (rw f (ap (λ r. b ∷ r) (copy_at_sum p k s x)))

copy_at_behind :
    (p : Bytes) (k n : ℕ) (s x : Bytes)
    → length p + k ≡ n
    → copy_at n s (p ++ x) ≡ p ++ copy_at k s x
copy_at_behind p k n s x e = rw (← e) (copy_at_sum p k s x)

read_field_lem :
    (field_number n : ℕ) (s rest : Bytes)
    → length s ≡ n
    → read_field field_number n (field_number ∷ (s ++ rest)) ≡ some (s, rest)
unfolding read_field starts
read_field_lem field_number n s rest e =
    let long : leb (n + 1) (suc (length (s ++ rest))) ≡ true =
      rw (length-append s rest) (ground arith) in
    let past : n + 1 ≡ suc n = omega arith in
    let front : take n (s ++ rest) ≡ s = rw (← e) (take_append s rest) in
    let back : drop n (s ++ rest) ≡ rest = rw (← e) (drop_append s rest) in
    rw (long, ==-refl field_number) (rw past (rw (front, back)))

-- The five copies, one after another, on ids of their lengths.
copies :
    (t s : Bytes) (f : ℕ)
    → length t ≡ 16
    → length s ≡ 8
    → copy_at 28
        (f ∷ [])
        (copy_at 27 (2 ∷ []) (copy_at 19 s (copy_at 18 (1 ∷ []) (copy_at 2 t (replicate 29 0)))))
      ≡ 0 ∷ 0 ∷ (t ++ 1 ∷ (s ++ 2 ∷ f ∷ []))
copies t s f ht hs =
    let front : Bytes = 0 ∷ 0 ∷ t in
    let at : length front ≡ 18 = omega (arith, ht) in
    let ids : copy_at 2 t (replicate 29 0) ≡ front ++ replicate 11 0 = unfold copy_at in rw ht in
    let one : copy_at 18 (1 ∷ []) (front ++ replicate 11 0) ≡ front ++ 1 ∷ replicate 10 0 =
      copy_at_behind front 0 18 (1 ∷ []) (replicate 11 0) (omega (arith, at))
      ∙ unfold copy_at in refl in
    let span : copy_at 19 s (front ++ 1 ∷ replicate 10 0) ≡ front ++ 1 ∷ (s ++ replicate 2 0) =
      copy_at_behind front 1 19 s (1 ∷ replicate 10 0) (omega (arith, at))
      ∙ unfold copy_at in rw hs in
    let two : copy_at 27 (2 ∷ []) (front ++ 1 ∷ (s ++ replicate 2 0))
        ≡ front ++ 1 ∷ (s ++ 2 ∷ 0 ∷ []) =
      copy_at_behind front 9 27 (2 ∷ []) (1 ∷ (s ++ replicate 2 0)) (omega (arith, at))
      ∙ ap (λ x. front ++ x)
          (copy_at_behind (1 ∷ s) 0 9 (2 ∷ []) (replicate 2 0) (omega (arith, hs))
            ∙ unfold copy_at in refl) in
    let flags : copy_at 28 (f ∷ []) (front ++ 1 ∷ (s ++ 2 ∷ 0 ∷ []))
        ≡ front ++ 1 ∷ (s ++ 2 ∷ f ∷ []) =
      copy_at_behind front 10 28 (f ∷ []) (1 ∷ (s ++ 2 ∷ 0 ∷ [])) (omega (arith, at))
      ∙ ap (λ x. front ++ x)
          (copy_at_behind (1 ∷ s) 1 10 (f ∷ []) (2 ∷ 0 ∷ []) (omega (arith, hs))
            ∙ unfold copy_at in refl) in
    rw ids (rw one (rw span (rw two flags)))

module _ {SpanContext : Type 0} (api : SpanContexts SpanContext) where
  -- What another process should see of a context: the same ids and flags, remote, and without a
  -- trace state; or the empty context, where it is not valid.
  abbrev pub received : SpanContext → SpanContext
  received c =
      if api.is_valid c
      then api.new (api.trace_id c) (api.span_id c) (api.trace_flags c) true
      else api.empty_context

module _ {SpanContext : Type 0} (api : SpanContexts SpanContext) (laws : SpanContextLaws api) where
  new_is_valid :
      (t s : Bytes) (f : ℕ)
      → length t ≡ 16
      → length s ≡ 8
      → api.is_valid (api.new t s f true) ≡ (not (all_zero t) && not (all_zero s))
  new_is_valid t s f ht hs =
      laws.is_valid_ids (api.new t s f true)
      ∙ rw (laws.trace_id_new t s f true ht hs, laws.span_id_new t s f true ht hs)

  valid_bytes :
      (c : SpanContext)
      → api.is_valid c ≡ true
      → deserialize_from_bytes api (serialize_into_bytes api c) ≡ received api c
  valid_bytes c valid =
      let t = api.trace_id c in
      let s = api.span_id c in
      let f = api.trace_flags c in
      let ht = laws.length_trace_id c in
      let hs = laws.length_span_id c in
      let wire : serialize_into_bytes api c ≡ 0 ∷ 0 ∷ (t ++ 1 ∷ (s ++ 2 ∷ f ∷ [])) =
        unfold serialize_into_bytes in rw valid (copies t s f ht hs) in
      let valid_too : api.is_valid (api.new t s f true) ≡ true =
        new_is_valid t s f ht hs ∙ sym (laws.is_valid_ids c) ∙ valid in
      let first = read_field_lem 0 16 t (1 ∷ (s ++ 2 ∷ f ∷ [])) ht in
      let second = read_field_lem 1 8 s (2 ∷ f ∷ []) hs in
      let third = read_field_lem 2 1 (f ∷ []) [] refl in
      rw wire (
        unfold deserialize_from_bytes in
        rw (first, deserialize_from_bytes)
          (unfold read_span_id read_trace_flags checked in
            rw (second, read_span_id) (rw (third, read_trace_flags) (rw (valid_too, valid)))))

  invalid_bytes :
      (c : SpanContext)
      → api.is_valid c ≡ false
      → deserialize_from_bytes api (serialize_into_bytes api c) ≡ received api c
  invalid_bytes c invalid =
      let zeros_invalid : api.is_valid (api.new (replicate 16 0) (replicate 8 0) 0 true) ≡ false =
        new_is_valid (replicate 16 0) (replicate 8 0) 0 refl refl ∙ unfold all_zero in refl in
      unfold serialize_into_bytes in
      rw invalid (
        unfold deserialize_from_bytes read_field starts read_span_id read_trace_flags checked in
        rw zeros_invalid)

  -- Where opentelemetry keeps its documented word on span contexts, a context that is serialized
  -- into bytes is deserialized as its ids and flags, remote and without a trace state, if it is
  -- valid, and as the empty context if not.
  pub deserialize_from_bytes-serialize_into_bytes :
      (c : SpanContext) → deserialize_from_bytes api (serialize_into_bytes api c) ≡ received api c
  deserialize_from_bytes-serialize_into_bytes c = elim (Bool-cases (api.is_valid c)) [
    | inl valid ↦ valid_bytes c valid
    | inr invalid ↦ invalid_bytes c invalid
  ]

  -- Where decoding base64 undoes encoding, the base64 form of a context is deserialized as its
  -- binary form is.
  pub deserialize_from_base64-serialize_into_base64 :
      (encode : Bytes → Bytes) (decode : Bytes → Option Bytes)
      → ((s : Bytes) → decode (encode s) ≡ some s)
      → (c : SpanContext)
      → deserialize_from_base64 api encode decode (serialize_into_base64 api encode decode c)
        ≡ received api c
  deserialize_from_base64-serialize_into_base64 encode decode undone c =
      unfold deserialize_from_base64 serialize_into_base64 in
      rw (undone (serialize_into_bytes api c), deserialize_from_base64)
        (deserialize_from_bytes-serialize_into_bytes c)
