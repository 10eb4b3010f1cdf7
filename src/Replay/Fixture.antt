-- ===== src/Replay/Fixture.antt =====
-- Which line of a fixture is reported.
use real_time_system_project.Common.{
  ℕ, suc, ◌+◌, ◌≡◌, refl, ap, sym, ◌∙◌, Bool, true, false, List, [], ◌∷◌, ◌++◌, append_assoc,
  append-nil, ◌⊎◌, inl, inr, arith, length, map, Text, Result, ok, err, All, if◌then◌else◌,
}
use real_time_system_project.Replay.{
  RecordedEvent, bad_envelope, load_lines, load_fixture, unless_empty,
}

module _ {E : Type 0} (from_str : Text → Result E RecordedEvent) (is_blank : Text → Bool) where
  abbrev parsed : Result E RecordedEvent → List RecordedEvent
  parsed (err e) = []
  parsed (ok event) = event ∷ []

  -- the events of the lines that are not blank
  abbrev pub events_of : List Text → List RecordedEvent
  events_of [] = []
  events_of (l ∷ ls) = (if is_blank l then [] else parsed (from_str l)) ++ events_of ls

  -- A line that the loader takes: blank, or an envelope.
  abbrev pub IsGood : Text → Type 0
  IsGood l =
      (is_blank l ≡ true) ⊎ ((e : RecordedEvent) × (is_blank l ≡ false) × (from_str l ≡ ok e))

module _ {I E : Type 0} (from_str : Text → Result E RecordedEvent) (is_blank : Text → Bool) where
  load_blank :
      (l : Text) (rest : List (Result I Text)) (n : ℕ) (out : List RecordedEvent)
      → is_blank l ≡ true
      → load_lines {I = I} from_str is_blank n out (ok l ∷ rest)
        ≡ load_lines from_str is_blank (suc n) out rest
  unfolding load_lines
  load_blank l rest n out b = rw (load_lines, b) refl

  load_envelope :
      (l : Text) (e : RecordedEvent) (rest : List (Result I Text)) (n : ℕ)
      (out : List RecordedEvent)
      → is_blank l ≡ false
      → from_str l ≡ ok e
      → load_lines {I = I} from_str is_blank n out (ok l ∷ rest)
        ≡ load_lines from_str is_blank (suc n) (out ++ (e ∷ [])) rest
  unfolding load_lines
  load_envelope l e rest n out b p = rw (load_lines, b, p) refl

  load_good :
      (ls : List Text) (rest : List (Result I Text)) (n : ℕ) (out : List RecordedEvent)
      → All (IsGood from_str is_blank) ls
      → load_lines {I = I} from_str is_blank n out (map ok ls ++ rest)
        ≡ load_lines from_str is_blank (n + length ls) (out ++ events_of from_str is_blank ls) rest
  load_good [] rest n out h = sym (
      ap (λ m. load_lines from_str is_blank m (out ++ []) rest) (omega arith)
      ∙ ap (λ es. load_lines from_str is_blank n es rest) (append-nil out))
  load_good (l ∷ ls) rest n out (inl b, h) =
      load_blank l _ n out b
      ∙ load_good ls rest (suc n) out h
      ∙ ap (λ m. load_lines from_str is_blank m (out ++ events_of from_str is_blank ls) rest)
          (omega arith)
      ∙ ap
          (λ b.
            load_lines from_str is_blank (n + length (l ∷ ls))
              (out
                ++ ((if b then [] else parsed from_str is_blank (from_str l))
                    ++ events_of from_str is_blank ls))
              rest)
          (sym b)
  load_good (l ∷ ls) rest n out (inr (e, b, p), h) =
      load_envelope l e _ n out b p
      ∙ load_good ls rest (suc n) (out ++ (e ∷ [])) h
      ∙ ap
          (λ m.
            load_lines from_str is_blank m ((out ++ (e ∷ [])) ++ events_of from_str is_blank ls)
              rest)
          (omega arith)
      ∙ ap (λ es. load_lines from_str is_blank (n + length (l ∷ ls)) es rest)
          (append_assoc out (e ∷ []) (events_of from_str is_blank ls) ∙ rw (b, p) refl)

  load_bad :
      (l : Text) (x : E) (rest : List (Result I Text)) (n : ℕ) (out : List RecordedEvent)
      → is_blank l ≡ false
      → from_str l ≡ err x
      → load_lines {I = I} from_str is_blank n out (ok l ∷ rest) ≡ err (bad_envelope (suc n) x)
  unfolding load_lines
  load_bad l x rest n out b p = rw (load_lines, b, p) refl

  -- A fixture whose lines are blank or envelopes, not all of them blank, is loaded as the events of its
  -- envelopes, in order.
  pub load_fixture_loads :
      (ls : List Text) (e : RecordedEvent) (es : List RecordedEvent)
      → All (IsGood from_str is_blank) ls
      → events_of from_str is_blank ls ≡ e ∷ es
      → load_fixture {I = I} from_str is_blank (ok (map ok ls)) ≡ ok (e ∷ es)
  unfolding load_fixture load_lines
  load_fixture_loads ls e es h f =
      ap (load_lines from_str is_blank 0 []) (sym (append-nil (map ok ls)))
      ∙ load_good ls [] 0 [] h
      ∙ ap (unless_empty from_str is_blank) f

  -- The first line that is neither blank nor an envelope is reported by its number, from 1, whatever
  -- follows it.
  pub load_fixture_reports :
      (ls : List Text) (l : Text) (x : E) (rest : List (Result I Text))
      → All (IsGood from_str is_blank) ls
      → is_blank l ≡ false
      → from_str l ≡ err x
      → load_fixture {I = I} from_str is_blank (ok (map ok ls ++ (ok l ∷ rest)))
        ≡ err (bad_envelope (length ls + 1) x)
  unfolding load_fixture
  load_fixture_reports ls l x rest h b p =
      load_good ls (ok l ∷ rest) 0 [] h
      ∙ load_bad l x rest (0 + length ls) (events_of from_str is_blank ls) b p
      ∙ ap (λ n. err (bad_envelope n x)) (omega arith)
