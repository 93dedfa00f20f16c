-- ===== src/UserLogs/Parts.antt =====
-- Each part of an event is a struct whose count is that of its fields.
use opentelemetry_rust_contr.Common.{
  ℕ, suc, ◌%◌, ◌^◌, ◌≤◌, List, [], ◌∷◌, ◌++◌, map, length, length-append, append-nil, append_assoc,
  ◌≡◌, refl, ◌∙◌, ap, Option, none, some, arith,
}
use opentelemetry_rust_contr.Common.Text.{Str}
use opentelemetry_rust_contr.UserLogs.{
  Field, add, add_struct, EventBuilder, Counting, put, put_in, count_more, when_some,
  add_struct_with_bookmark, set_count,
}
use opentelemetry_rust_contr.UserLogs.Reader.{struct_calls}

-- What was added since a builder, with the right count, as a byte.
pub record Filled (eb : EventBuilder) (fields : List Field) (st : Counting) : Type 0 where
  pub calls : st.eb.calls ≡ eb.calls ++ map add fields
  pub count : st.count ≡ length fields % 2 ^ 8
  pub structs : st.eb.structs ≡ eb.structs
  pub event_name : st.eb.event_name ≡ eb.event_name

map_add-append : (fs gs : List Field) → map add (fs ++ gs) ≡ map add fs ++ map add gs
map_add-append [] gs = refl
map_add-append (f ∷ fs) gs = ap (λ rest. add f ∷ rest) (map_add-append fs gs)

pub Filled-nothing : (eb : EventBuilder) → Filled eb [] (record { eb = eb; count = 0 })
Filled-nothing eb = record {
  calls = rw (append-nil);
  count = refl;
  structs = refl;
  event_name = refl;
}

pub Filled-one :
    (eb : EventBuilder) (fields : List Field) (field : Field) (st : Counting)
    → Filled eb fields st
    → Filled eb (fields ++ field ∷ []) (count_more 1 (put_in field st))
unfolding count_more put_in put
Filled-one eb fields field st h = record {
  calls = rw (
    h.calls,
    map_add-append fields (field ∷ []),
    append_assoc eb.calls (map add fields) (add field ∷ []),
  );
  count = rw (h.count) (omega (arith, length-append fields (field ∷ [])));
  structs = h.structs;
  event_name = h.event_name;
}

-- The count is raised first.
pub Filled-counted :
    (eb : EventBuilder) (fields : List Field) (field : Field) (st : Counting)
    → Filled eb fields st
    → Filled eb (fields ++ field ∷ []) (put_in field (count_more 1 st))
unfolding count_more put_in
Filled-counted eb fields field st h = Filled-one eb fields field st h

pub Filled-pair :
    (eb : EventBuilder) (fields : List Field) (a b : Field) (st : Counting)
    → Filled eb fields st
    → Filled eb (fields ++ a ∷ b ∷ []) (put_in b (put_in a (count_more 2 st)))
unfolding count_more put_in put
Filled-pair eb fields a b st h = record {
  calls =
      rw (h.calls, map_add-append fields (a ∷ b ∷ []))
        (append_assoc (eb.calls ++ map add fields) (add a ∷ []) (add b ∷ [])
          ∙ append_assoc eb.calls (map add fields) (add a ∷ add b ∷ []));
  count = rw (h.count) (omega (arith, length-append fields (a ∷ b ∷ [])));
  structs = h.structs;
  event_name = h.event_name;
}

abbrev pub fields_if : {A : Type 0} → Option A → (A → List Field) → List Field
fields_if none fields = []
fields_if (some a) fields = fields a

pub length-fields_if :
    {A : Type 0} (o : Option A) (fields : A → List Field) (n : ℕ)
    → ((a : A) → length (fields a) ≤ n)
    → length (fields_if o fields) ≤ n
length-fields_if none fields n h = omega arith
length-fields_if (some a) fields n h = h a

pub Filled-when_some :
    {A : Type 0} (eb : EventBuilder) (fields : List Field) (st : Counting) (o : Option A)
    (more : A → List Field) (change : A → Counting → Counting)
    → Filled eb fields st
    → ((a : A) → Filled eb (fields ++ more a) (change a st))
    → Filled eb (fields ++ fields_if o more) (when_some o change st)
unfolding when_some
Filled-when_some eb fields st none more change h each = rw (append-nil fields) h
Filled-when_some eb fields st (some a) more change h each = each a

-- A struct that is begun, filled and given its count.
pub calls-struct :
    (name : Str) (initial : ℕ) (eb : EventBuilder) (fields : List Field) (st : Counting)
    → Filled (add_struct_with_bookmark name initial eb).1 fields st
    → ((set_count eb.structs st.count st.eb).calls
        ≡ eb.calls ++ struct_calls eb.structs name initial fields)
      × ((set_count eb.structs st.count st.eb).structs ≡ suc eb.structs)
      × ((set_count eb.structs st.count st.eb).event_name ≡ eb.event_name)
unfolding add_struct_with_bookmark set_count
calls-struct name initial eb fields st h = (
  rw (h.calls, h.count)
      (rw (append_assoc (eb.calls) (add_struct name initial ∷ []) (map add fields))
        (append_assoc eb.calls _ _)),
  h.structs,
  h.event_name,
)
