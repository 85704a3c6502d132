-- ===== src/Store/Lines.antt =====
-- The bytes of the ledger file of src/tacorank/memory/event_store.py: lines, and the repair of an
-- incomplete last line. A file that does not exist is read as an empty one, as the source does.
use tacorank.Prelude.{
  if◌then◌else◌, ◌==◌, nat_eq, string_eq, option_eq, Bool-cases, length, last?, last?-snoc, elem,
  int_eq, ℕ, ◌≡◌, refl, sym, ap, ◌∙◌, subst, inl, inr, Bool, true, false, not, some, List, [], ◌∷◌,
  ◌++◌, arith,
}
use mathlib.Core.List.{append_assoc, append-nil}
use tacorank.Schemas.Judgements.{
  trust_verdict_eq, stability_eq, integrity_eq, experiment_decision_kind_eq, lesson_origin_eq,
  lesson_category_eq, lesson_status_eq, token_measurement_eq,
}
use tacorank.Schemas.Runs.{
  fidelity_eq, run_outcome_eq, recovery_action_eq, population_eq, failure_stage_eq, role_eq,
}
use tacorank.Schemas.Statuses.{run_status_eq, experiment_status_eq}

abbrev pub Bytes : Type 0
Bytes = List ℕ

abbrev pub newline : ℕ
newline = 10

-- data.split(b"\n")
unfoldable pub split_lines : Bytes → List Bytes
split_lines [] = [] ∷ []
split_lines (c ∷ cs) =
    let rest = split_lines cs in
    if c == newline
    then [] ∷ rest
    else elim rest [ [] ↦ (c ∷ []) ∷ [] | line ∷ more ↦ (c ∷ line) ∷ more ]

-- data[:-1]
unfoldable pub drop_last : Bytes → Bytes
drop_last [] = []
drop_last (c ∷ cs) = let rest = drop_last cs in elim cs [ [] ↦ [] | _ ∷ _ ↦ c ∷ rest ]

-- data.endswith(b"\n")
unfoldable pub ends_with_newline : Bytes → Bool
unfolding last?
ends_with_newline data_bytes = last? data_bytes == some newline

-- `_repair_incomplete_tail_locked`: the bytes up to the last newline, none where there is none
unfoldable pub repair_tail : Bytes → Bytes
repair_tail [] = []
repair_tail (c ∷ cs) =
    let rest = repair_tail cs in
    elim rest [ [] ↦ (if c == newline then newline ∷ [] else []) | b ∷ bs ↦ c ∷ b ∷ bs ]

-- `repair_incomplete_tail`: the file afterwards, and whether its size has changed
abbrev pub repair_incomplete_tail : Bytes → Bytes × Bool
repair_incomplete_tail file = (repair_tail file, not (length file == length (repair_tail file)))

-- the bytes of whole lines
unfoldable pub written : List Bytes → Bytes
written [] = []
written (line ∷ lines) = line ++ newline ∷ written lines

abbrev pub IsLine : Bytes → Type 0
IsLine line = elem newline line ≡ false

abbrev pub AreLines : List Bytes → Type 0
AreLines [] = Unit
AreLines (line ∷ lines) = IsLine line × AreLines lines

pub AreLines-append : (xs ys : List Bytes) → AreLines xs → AreLines ys → AreLines (xs ++ ys)
AreLines-append [] ys h k = k
AreLines-append (x ∷ xs) ys h k = (h.0, AreLines-append xs ys (h.1) k)

split_lines-line :
    (line rest : Bytes)
    → IsLine line
    → split_lines (line ++ newline ∷ rest) ≡ line ∷ split_lines rest
unfolding split_lines elem
split_lines-line [] rest h = refl
split_lines-line (c ∷ cs) rest h = ground (arith, split_lines-line cs rest)

split_lines-last : (line : Bytes) → IsLine line → split_lines line ≡ line ∷ []
unfolding split_lines elem
split_lines-last [] h = refl
split_lines-last (c ∷ cs) h = ground (arith, split_lines-last cs)

drop_last-append : (a : Bytes) (c : ℕ) (b : Bytes) → drop_last (a ++ c ∷ b) ≡ a ++ drop_last (c ∷ b)
unfolding drop_last
drop_last-append [] c b = refl
drop_last-append (x ∷ []) c b = refl
drop_last-append (x ∷ y ∷ a) c b = ground (arith, drop_last-append (y ∷ a) c b)

drop_last-written :
    (line next : Bytes) (lines : List Bytes)
    → drop_last (line ++ newline ∷ written (next ∷ lines))
      ≡ line ++ newline ∷ drop_last (written (next ∷ lines))
unfolding written
drop_last-written line next lines =
    drop_last-append line newline (written (next ∷ lines))
    ∙ ap (λ b. line ++ b)
        (drop_last-append (newline ∷ next) newline (written lines)
          ∙ ap (λ b. newline ∷ b) (sym (drop_last-append next newline (written lines))))

-- What was written line by line is read back line by line.
pub split_lines-written :
    (line : Bytes) (lines : List Bytes)
    → AreLines (line ∷ lines)
    → split_lines (drop_last (written (line ∷ lines))) ≡ line ∷ lines
unfolding written drop_last
split_lines-written line [] h =
    rw (drop_last-append line newline [], append-nil) (split_lines-last line (h.0))
split_lines-written line (next ∷ lines) h =
    ap split_lines (drop_last-written line next lines)
    ∙ split_lines-line line (drop_last (written (next ∷ lines))) (h.0)
    ∙ ap (λ ls. line ∷ ls) (split_lines-written next lines (h.1))

ends_with_newline-append :
    (a : Bytes) (lines : List Bytes) → ends_with_newline (a ++ newline ∷ written lines) ≡ true
unfolding written ends_with_newline
ends_with_newline-append a [] = rw (last?-snoc a newline) refl
ends_with_newline-append a (line ∷ lines) =
    subst (λ b. ends_with_newline b ≡ true)
      (append_assoc a (newline ∷ line) (newline ∷ written lines))
      (ends_with_newline-append (a ++ newline ∷ line) lines)

pub ends_with_newline-written :
    (line : Bytes) (lines : List Bytes) → ends_with_newline (written (line ∷ lines)) ≡ true
unfolding written
ends_with_newline-written line lines = ends_with_newline-append line lines

pub written-append : (xs ys : List Bytes) → written (xs ++ ys) ≡ written xs ++ written ys
unfolding written
written-append [] ys = refl
written-append (x ∷ xs) ys = rw (written-append xs ys, append_assoc) refl

repair_tail-line : (line : Bytes) → IsLine line → repair_tail line ≡ []
unfolding repair_tail elem
repair_tail-line [] h = refl
repair_tail-line (c ∷ cs) h = ground (arith, repair_tail-line cs)

repair_tail-append : (a b : Bytes) → repair_tail (a ++ newline ∷ b) ≡ a ++ newline ∷ repair_tail b
unfolding repair_tail
repair_tail-append [] b = ground arith
repair_tail-append (c ∷ []) b = ground arith
repair_tail-append (c ∷ d ∷ cs) b = rw (repair_tail-append (d ∷ cs) b) refl

-- The repair keeps the whole lines and drops a partial one.
pub repair_tail-written :
    (lines : List Bytes) (part : Bytes)
    → IsLine part
    → repair_tail (written lines ++ part) ≡ written lines
unfolding written
repair_tail-written [] part h = repair_tail-line part h
repair_tail-written (line ∷ lines) part h =
    ap repair_tail (append_assoc line (newline ∷ written lines) part)
    ∙ repair_tail-append line (written lines ++ part)
    ∙ ap (λ b. line ++ newline ∷ b) (repair_tail-written lines part h)

extend_lines :
    (c : ℕ) (cs : Bytes)
    → (lines : List Bytes) × AreLines lines × (repair_tail cs ≡ written lines)
    → (lines : List Bytes) × AreLines lines × (repair_tail (c ∷ cs) ≡ written lines)
unfolding repair_tail written elem
extend_lines c cs ([], h, e) = elim (Bool-cases (c == newline)) [
  | inl n ↦ ([] ∷ [], (refl, tt), rw (repair_tail, e) (ground arith))
  | inr n ↦ ([], tt, rw (repair_tail, e) (ground arith))
]
extend_lines c cs ([] ∷ lines, h, e) = elim (Bool-cases (c == newline)) [
  | inl n ↦ ([] ∷ [] ∷ lines, (refl, h), rw (repair_tail, e) (ground arith))
  | inr n ↦ ((c ∷ []) ∷ lines, (ground arith, h.1), rw (repair_tail, e) refl)
]
extend_lines c cs ((b ∷ line) ∷ lines, h, e) = elim (Bool-cases (c == newline)) [
  | inl n ↦ ([] ∷ (b ∷ line) ∷ lines, (refl, h), rw (repair_tail, e) (ground arith))
  | inr n ↦ ((c ∷ b ∷ line) ∷ lines, (ground arith, h.1), rw (repair_tail, e) refl)
]

-- What the repair leaves is a sequence of whole lines.
pub repair_tail-lines :
    (file : Bytes) → (lines : List Bytes) × AreLines lines × (repair_tail file ≡ written lines)
unfolding repair_tail written elem
repair_tail-lines [] = ([], tt, refl)
repair_tail-lines (c ∷ cs) = extend_lines c cs (repair_tail-lines cs)

repair_tail-lines_whole : (lines : List Bytes) → repair_tail (written lines) ≡ written lines
unfolding elem
repair_tail-lines_whole lines =
    ap repair_tail (sym (append-nil (written lines))) ∙ repair_tail-written lines [] refl

-- A repaired file with one more line needs no repair.
pub repair_tail-whole :
    (file line : Bytes)
    → repair_tail (repair_tail file ++ (line ++ newline ∷ []))
      ≡ repair_tail file ++ (line ++ newline ∷ [])
unfolding written
repair_tail-whole file line =
    let (lines, are, eq) = repair_tail-lines file in
    let whole : repair_tail file ++ (line ++ newline ∷ []) ≡ written (lines ++ line ∷ []) =
      ap (λ b. b ++ (line ++ newline ∷ [])) eq ∙ sym (written-append lines (line ∷ [])) in
    ap repair_tail whole ∙ repair_tail-lines_whole (lines ++ line ∷ []) ∙ sym whole
