-- ===== src/Ledger/Recovery.antt =====
-- What `Open` reads back from a file that a crash may have left with a torn record.
use mathlib.Core.List.{append_assoc, append-nil}
use chronos_code.Base.{
  Text, text_eq_refl, is_empty, any, All, All-map, ◌==◌, Bool, true, false, List, [], ◌∷◌, ◌++◌,
  map, Option, none, some, ok, is_ok, Result-cases, ◌≡◌, refl, inl, inr, arith, ap, sym, ◌∙◌,
}
use chronos_code.Ledger.Event.{Event}
use chronos_code.Ledger.Reduce.{reduce}
use chronos_code.Ledger.History.{reduce-accepts}
use chronos_code.Ledger.Store.{Ledger, new_ledger, append, persist, commit, attach_sink}
use chronos_code.Ledger.Recording.{reduce-task_id, extends-append}
use chronos_code.Ledger.FileStore.{
  LedgerRecord, ledger_record_version, split_lines, join_lines, is_blank, load_record, load_lines,
  checked, load_data, load, replay, open_ledger,
}

abbrev pub has_newline : Text → Bool
has_newline = any (λ c. c == b'\n')

split_lines-tail :
    (line tail : Text) → has_newline tail ≡ false → split_lines line tail ≡ ([], line ++ tail)
unfolding split_lines
split_lines-tail line [] h = ground (arith, append-nil line)
split_lines-tail line (c ∷ tail) h =
    ground (arith, split_lines-tail (line ++ c ∷ []) tail, append_assoc line (c ∷ []) tail)

split_lines-line :
    (start line rest : Text)
    → has_newline line ≡ false
    → split_lines start (line ++ (b'\n' ∷ rest))
      ≡ ((start ++ line) ∷ (split_lines [] rest).0, (split_lines [] rest).1)
unfolding split_lines
split_lines-line start [] rest h = ground (arith, append-nil start)
split_lines-line start (c ∷ line) rest h =
    ground (arith, split_lines-line (start ++ c ∷ []) line rest, append_assoc start (c ∷ []) line)

-- Lines and a tail without newlines are read back.
split_lines-join :
    (lines : List Text) (tail : Text)
    → All (λ line. has_newline line ≡ false) lines
    → has_newline tail ≡ false
    → split_lines [] (join_lines lines ++ tail) ≡ (lines, tail)
split_lines-join [] tail h k = split_lines-tail [] tail k
split_lines-join (line ∷ lines) tail h k =
    ap (split_lines []) (append_assoc line (b'\n' ∷ join_lines lines) tail)
    ∙ (split_lines-line [] line (join_lines lines ++ tail) h.0
        ∙ ground (arith, split_lines-join lines tail h.1 k))

module _ (encode : LedgerRecord → Text) (decode : Text → Option LedgerRecord) (task : Text) where
  abbrev pub record_of : Event → LedgerRecord
  record_of e = record { version = ledger_record_version; event = e }

  -- The coding of the event's record is one line, is not blank, and is read back.
  abbrev pub IsCoded : Event → Type 0
  IsCoded e =
      (decode (encode (record_of e)) ≡ some (record_of e))
      × (has_newline (encode (record_of e)) ≡ false)
      × (is_blank (encode (record_of e)) ≡ false)
      × (e.task_id ≡ task)

  abbrev pub lines_of : List Event → List Text
  lines_of = map (λ e. encode (record_of e))

  lines_of-whole :
      (es : List Event) → All IsCoded es → All (λ line. has_newline line ≡ false) (lines_of es)
  lines_of-whole [] h = tt
  lines_of-whole (e ∷ es) h = (h.0.1, lines_of-whole es h.1)

  load_lines-lines_of :
      (es : List Event) → All IsCoded es → load_lines decode task (lines_of es) ≡ ok es
  unfolding load_lines load_record
  load_lines-lines_of [] h = refl
  load_lines-lines_of (e ∷ es) h =
      ground (arith, h.0, text_eq_refl task, load_lines-lines_of es h.1)

  -- A history that `Reduce` accepts, written line by line, is loaded whole, whatever part of one more
  -- record without its newline stands behind it; that part is cut off.
  load_data-recovers :
      (es : List Event) (torn : Text)
      → All IsCoded es
      → is_ok (reduce es) ≡ true
      → has_newline torn ≡ false
      → load_data decode true task (join_lines (lines_of es) ++ torn)
        ≡ (join_lines (lines_of es), ok es)
  unfolding load_data checked
  load_data-recovers es torn coded accepted whole = ground (
    arith,
    split_lines-join (lines_of es) torn (lines_of-whole es coded) whole,
    load_lines-lines_of es coded,
    append-nil (join_lines (lines_of es)),
  )

prefix-accepted :
    (done : List Event) (e : Event) (es : List Event)
    → is_ok (reduce (done ++ e ∷ es)) ≡ true
    → is_ok (reduce (done ++ e ∷ [])) ≡ true
prefix-accepted done e es h = ground (
  arith,
  reduce-accepts (done ++ e ∷ es),
  reduce-accepts (done ++ e ∷ []),
  extends-append [] done (e ∷ es),
  extends-append [] done (e ∷ []),
)

module _ {S : Type 0} (append_event : S → Event → S × Option Text) where
  append-accepted :
      (l : Ledger S) (e : Event)
      → is_empty l.task_id ≡ false
      → l.sink ≡ none
      → e.task_id ≡ l.task_id
      → is_ok (reduce (l.events ++ e ∷ [])) ≡ true
      → ((append append_event l e).1 ≡ none)
        × ((append append_event l e).0.events ≡ l.events ++ e ∷ [])
        × ((append append_event l e).0.task_id ≡ l.task_id)
        × ((append append_event l e).0.sink ≡ none)
  unfolding append persist commit
  append-accepted l e has_task no_sink same accepted =
      elim (Result-cases (reduce (l.events ++ e ∷ []))) [
        | inl (s, p) ↦ ground (arith, p, reduce-task_id l.events e p, text_eq_refl l.task_id)
        | inr (x, p) ↦ ground (arith, p)
      ]

  replay-recovers :
      (l : Ledger S) (es : List Event)
      → is_empty l.task_id ≡ false
      → l.sink ≡ none
      → All (λ e. e.task_id ≡ l.task_id) es
      → is_ok (reduce (l.events ++ es)) ≡ true
      → (l' : Ledger S) × (replay append_event l es ≡ ok l')
        × (l'.events ≡ l.events ++ es)
        × (l'.task_id ≡ l.task_id)
  unfolding replay
  replay-recovers l [] has_task no_sink same accepted = (l, refl, sym (append-nil l.events), refl)
  replay-recovers l (e ∷ es) has_task no_sink same accepted =
      let (done, grown, kept, still) =
        append-accepted l e has_task no_sink same.0 (prefix-accepted l.events e es accepted) in
      let (l', p, q, r) =
        replay-recovers (append append_event l e).0 es (rw kept has_task) still (rw kept same.1)
          (rw (grown, append_assoc) accepted) in
      (
        l',
        rw (done, replay) p,
        q ∙ ground (arith, grown, append_assoc l.events (e ∷ []) es),
        r ∙ kept,
      )

module _ {S : Type 0} (append_event : S → Event → S × Option Text) (sink : S)
    (encode : LedgerRecord → Text) (decode : Text → Option LedgerRecord) (task : Text) where
  -- A history that `Reduce` accepts, of a task with a name, one coded record to a line (on one line,
  -- not blank, and read back by the decoder), with a torn part of a record without a newline behind
  -- it or nothing, where the file can be truncated: `Open` cuts the torn part off the file, and returns a ledger of the task that holds
  -- exactly the history and writes to the sink.
  pub open_ledger-recovers :
      (es : List Event) (torn : Text)
      → is_empty task ≡ false
      → All (IsCoded encode decode task) es
      → is_ok (reduce es) ≡ true
      → has_newline torn ≡ false
      → let file = join_lines (lines_of encode decode task es) in
        let r = open_ledger append_event sink decode true task (some (file ++ torn)) in
        (l : Ledger S) × (r.0 ≡ some file)
        × (r.1 ≡ ok l)
        × (l.events ≡ es)
        × (l.task_id ≡ task)
        × (l.sink ≡ some sink)
  unfolding open_ledger load attach_sink new_ledger
  open_ledger-recovers es torn has_task coded accepted whole =
      let loaded = load_data-recovers encode decode task es torn coded accepted whole in
      let (l, p, q, t) =
        replay-recovers append_event (new_ledger task) es has_task refl (owned es coded) accepted in
      (attach_sink l sink, ground (arith, loaded), ground (arith, loaded, p), q, t, refl)
    where
      owned :
          (xs : List Event) → All (IsCoded encode decode task) xs → All (λ e. e.task_id ≡ task) xs
      owned xs h = All-map xs (λ e c. c.3) h
