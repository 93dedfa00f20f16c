-- ===== src/Datadog/V05/Sends.antt =====
-- Writers that share an interner, against readers that are given the dictionary: each part of a span is
-- read back, with any dictionary that has grown since.
use opentelemetry_rust_contr.Common.{
  ℕ, zero, suc, ◌%◌, ◌^◌, ◌+◌, ◌≤◌, List, [], ◌∷◌, ◌++◌, append_assoc, append-nil, map, ◌≡◌, refl,
  sym, ap, ◌∙◌, none, some, length, length-append, get_elem?, ◌>>=◌, arith,
}
use native.Mathlib.Nat.{mod-eq_of_lt}
use opentelemetry_rust_contr.Common.Text.{Str}
use opentelemetry_rust_contr.Datadog.Tokens.{
  Token, write_u32, write_map_len, Reader, Reads, both, both-Reads, many, many_append, map_of,
  map_of-Reads,
}
use opentelemetry_rust_contr.Datadog.Value.{InternValue, Printers}
use opentelemetry_rust_contr.Datadog.Value.Written.{text}
use opentelemetry_rust_contr.Datadog.Interner.{StringInterner, intern_full}
use opentelemetry_rust_contr.Datadog.Interner.Resolve.{
  IndexLaw, Interned, intern_full-Interned, get_elem?-append, get_elem?_inside,
}
use opentelemetry_rust_contr.Datadog.V05.{Writer, write, nothing, ◌▸◌, Build, write_interned}

-- The text of a number in the dictionary.
unfoldable pub read_text : List Str → Reader Str
read_text dictionary (write_u32 idx ∷ tokens) = do s ← get_elem? dictionary idx; some (s, tokens)
read_text dictionary _ = none

abbrev pub dictionary_of : Printers → StringInterner → List Str
dictionary_of printers interner = map (text printers) interner

-- A writer that was given the interner `before` only added to it, and what it wrote is read as `v` with
-- the dictionary of any interner that has grown from the one that it left.
pub record Sent {A : Type 0} (printers : Printers) (before : StringInterner)
    (result : List Token × StringInterner) (r : List Str → Reader A) (v : A) : Type 0 where
  pub more : StringInterner
  pub grew : result.1 ≡ before ++ more
  pub reads :
      (later : StringInterner)
      → length result.1 ≤ 2 ^ 32
      → Reads (r (dictionary_of printers (result.1 ++ later))) result.0 v

-- The same of a writer, whatever interner it is given.
abbrev pub Sends : {A : Type 0} → Printers → Writer → (List Str → Reader A) → A → Type 0
Sends printers p r v = (before : StringInterner) → Sent printers before (p before) r v

get_elem?-map :
    {A B : Type 0} (f : A → B) (xs : List A) (i : ℕ) (x : A)
    → get_elem? xs i ≡ some x
    → get_elem? (map f xs) i ≡ some (f x)
get_elem?-map f [] i x h = cc
get_elem?-map f (y ∷ xs) zero x h = ground arith
get_elem?-map f (y ∷ xs) (suc i) x h = get_elem?-map f xs i x h

module _ (printers : Printers) where
  -- One result after the other, for any way to read what both wrote.
  pub compose-Sent :
      {A B C : Type 0} {r : List Str → Reader A} {s : List Str → Reader B} {v : A} {w : B}
      {before : StringInterner} (first second : List Token × StringInterner)
      (c : List Str → Reader C) (z : C)
      → ((dictionary : List Str) (t u : List Token)
          → Reads (r dictionary) t v
          → Reads (s dictionary) u w
          → Reads (c dictionary) (t ++ u) z)
      → Sent printers before first r v
      → Sent printers first.1 second s w
      → Sent printers before (first.0 ++ second.0, second.1) c z
  compose-Sent {before = before} first second c z combine h h' = record {
    more = h.more ++ h'.more;
    grew = h'.grew ∙ (ap (λ d. d ++ h'.more) h.grew ∙ append_assoc before h.more h'.more);
    reads = λ later small.
        let size : length first.1 ≤ 2 ^ 32 =
          omega (arith, ap length h'.grew, length-append first.1 h'.more) in
        let same : first.1 ++ (h'.more ++ later) ≡ second.1 ++ later =
          sym (append_assoc first.1 h'.more later) ∙ ap (λ d. d ++ later) (sym h'.grew) in
        combine (dictionary_of printers (second.1 ++ later)) first.0 second.0
          (rw same at (h.reads (h'.more ++ later) size)) (h'.reads later small);
  }

  pub write-Sends :
      {A : Type 0} (token : Token) (r : Reader A) (v : A)
      → Reads r (token ∷ []) v
      → Sends printers (write token) (λ dictionary. r) v
  unfolding write
  write-Sends token r v h before = record {
    more = [];
    grew = rw (append-nil before);
    reads = λ later small. h;
  }

  pub then-Sends :
      {A B : Type 0} {p q : Writer} (r : List Str → Reader A) (s : List Str → Reader B) {v : A}
      {w : B}
      → Sends printers p r v
      → Sends printers q s w
      → Sends printers (p ▸ q) (λ dictionary. both (r dictionary) (s dictionary)) (v, w)
  unfolding ◌▸◌
  then-Sends {p = p} {q = q} r s {v = v} {w = w} hp hq before =
      compose-Sent (p before) (q (p before).1) (λ dictionary. both (r dictionary) (s dictionary))
        (v, w) (λ dictionary t u. both-Reads (r dictionary) (s dictionary) t u v w) (hp before)
        (hq (p before).1)

  pub none-Sends :
      {A : Type 0} (r : List Str → Reader A)
      → Sends printers nothing (λ dictionary. many (r dictionary) 0) []
  unfolding many nothing
  none-Sends r before = record {
    more = [];
    grew = rw (append-nil before);
    reads = λ later small rest. refl;
  }

  -- Elements that two writers write, one after the other.
  pub many-Sends :
      {A : Type 0} {p q : Writer} (r : List Str → Reader A) (k m n : ℕ) {xs ys : List A}
      → k ≡ m + n
      → Sends printers p (λ dictionary. many (r dictionary) m) xs
      → Sends printers q (λ dictionary. many (r dictionary) n) ys
      → Sends printers (p ▸ q) (λ dictionary. many (r dictionary) k) (xs ++ ys)
  unfolding ◌▸◌
  many-Sends {p = p} {q = q} r k m n {xs = xs} {ys = ys} e hp hq before = rw e (
      compose-Sent (p before) (q (p before).1) (λ dictionary. many (r dictionary) (m + n))
        (xs ++ ys) (λ dictionary t u. many_append (r dictionary) m n t u xs ys) (hp before)
        (hq (p before).1))

  -- One element.
  pub one-Sent :
      {A : Type 0} {before : StringInterner} (result : List Token × StringInterner)
      (r : List Str → Reader A) (v : A)
      → Sent printers before result r v
      → Sent printers before result (λ dictionary. many (r dictionary) 1) (v ∷ [])
  unfolding many
  one-Sent result r v h = record {
    more = h.more;
    grew = h.grew;
    reads = λ later small rest. rw (h.reads later small rest);
  }

  -- A map: its length, and as many entries.
  pub map-Sends :
      {A : Type 0} {p : Writer} (r : List Str → Reader A) (n m : ℕ) {xs : List A}
      → m ≡ n
      → Sends printers p (λ dictionary. many (r dictionary) n) xs
      → Sends printers (write (write_map_len m) ▸ p) (λ dictionary. map_of (r dictionary)) xs
  unfolding ◌▸◌ write
  map-Sends {p = p} r n m {xs = xs} e h before = record {
    more = (h before).more;
    grew = (h before).grew;
    reads = λ later small.
        map_of-Reads (r (dictionary_of printers ((p before).1 ++ later))) n m (p before).0 xs e
          ((h before).reads later small);
  }

  -- A number that stands for an element of the interner.
  pub number-Sent :
      (before earlier : StringInterner) (x : InternValue) (result : ℕ × StringInterner)
      → Interned x earlier result
      → (more : StringInterner) → before ≡ result.1 ++ more
      → Sent printers before (write_u32 result.0 ∷ [], before) read_text (text printers x)
  unfolding read_text
  number-Sent before earlier x result i more e = record {
    more = [];
    grew = rw (append-nil before);
    reads = λ later small rest.
        let found : get_elem? before i.place ≡ some x =
          rw e (get_elem?-append result.1 more i.place x i.found) in
        let here = get_elem?_inside before i.place x found in
        let cut : i.place % 2 ^ 32 ≡ i.place = mod-eq_of_lt (omega arith) in
        let resolved =
          get_elem?-map (text printers) (before ++ later) i.place x
            (get_elem?-append before later i.place x found) in
        rw i.number (rw cut (rw resolved));
  }

  pub write_interned-Sends :
      (build : Build) (x : InternValue)
      → IndexLaw build.get_index_of
      → Sends printers (write_interned build x) read_text (text printers x)
  unfolding write_interned
  write_interned-Sends build x law before =
      let i = intern_full-Interned build.get_index_of x before law in
      let sent =
        number-Sent (intern_full build.get_index_of x before).1 before x
          (intern_full build.get_index_of x before) i []
          (rw (append-nil (intern_full build.get_index_of x before).1)) in
      record { more = i.more; grew = i.grew; reads = sent.reads }
