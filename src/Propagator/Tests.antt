-- ===== src/Propagator/Tests.antt =====
-- A span context at concrete ids.
pub mod Ids
pub mod Headers
use opentelemetry_rust_contr.Common.{
  ℕ, [], ◌∷◌, ◌++◌, not, ◌&&◌, ◌≡◌, refl, length, take, replicate, length-take, length-append,
  length-replicate, take_append, arith,
}
use mathlib.Core.Path.{subst}
use opentelemetry_rust_contr.Common.Bytes.{Bytes}
use opentelemetry_rust_contr.Propagator.Binary.{
  SpanContexts, serialize_into_bytes, deserialize_from_bytes,
}
use opentelemetry_rust_contr.Propagator.Binary.RoundTrip.{
  all_zero, SpanContextLaws, received, deserialize_from_bytes-serialize_into_bytes,
}

record Context : Type 0 where
  trace : Bytes
  span : Bytes
  flags : ℕ

-- An id of `n` bytes, cut or filled with zeros.
fit : ℕ → Bytes → Bytes
fit n id = take n (id ++ replicate n 0)

length-fit : (n : ℕ) (id : Bytes) → length (fit n id) ≡ n
unfolding fit
length-fit n id = omega (
  arith,
  length-take n (id ++ replicate n 0),
  length-append id (replicate n 0),
  length-replicate {A = ℕ} n 0,
)

fit_same : (n : ℕ) (id : Bytes) → length id ≡ n → fit n id ≡ id
unfolding fit
fit_same n id e = subst (λ k. take k (id ++ replicate n 0) ≡ id) e (take_append id (replicate n 0))

abbrev contexts : SpanContexts Context
contexts = record {
  trace_id = λ c. fit 16 c.trace;
  span_id = λ c. fit 8 c.span;
  trace_flags = λ c. c.flags;
  is_valid = λ c. not (all_zero (fit 16 c.trace)) && not (all_zero (fit 8 c.span));
  new = λ trace span flags remote. record { trace = trace; span = span; flags = flags };
  empty_context = record { trace = []; span = []; flags = 0 };
}

contexts-SpanContextLaws : SpanContextLaws contexts
contexts-SpanContextLaws = record {
  length_trace_id = λ c. length-fit 16 c.trace;
  length_span_id = λ c. length-fit 8 c.span;
  is_valid_ids = λ c. refl;
  trace_id_new = λ t s f remote ht hs. fit_same 16 t ht;
  span_id_new = λ t s f remote ht hs. fit_same 8 s hs;
}

abbrev sampled : Context
sampled = record {
  trace = 0x4b ∷ 0xf9 ∷ 0x2f ∷ 0x35 ∷ 0x77 ∷ 0xb3 ∷ 0x4d ∷ 0xa6 ∷ replicate 8 7;
  span = 0 ∷ 0xf0 ∷ 0x67 ∷ 0xaa ∷ 0x0b ∷ 0xa9 ∷ 2 ∷ 0xb7 ∷ [];
  flags = 1;
}

deserialize_from_bytes-serialize_into_bytes_example :
    deserialize_from_bytes contexts (serialize_into_bytes contexts sampled)
    ≡ received contexts sampled
deserialize_from_bytes-serialize_into_bytes_example =
    deserialize_from_bytes-serialize_into_bytes contexts contexts-SpanContextLaws sampled
