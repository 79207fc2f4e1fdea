-- ===== src/Store/File/Log.antt =====
-- What the plain store loads, where no call fails.
use go_prod22_go_project.Prelude.{
  ℕ, suc, Option, none, some, true, ◌≡◌, refl, sym, ◌∙◌, ap, subst, List, [], ◌∷◌, ◌++◌, keep,
  append-nil, append_assoc,
}
use go_prod22_go_project.Prelude.Map.{lookup, insert, lookup-insert}
use go_prod22_go_project.Domain.Errors.{ok}
use go_prod22_go_project.Events.{Event}
use go_prod22_go_project.Store.{empty_state}
use go_prod22_go_project.Store.Lines.{Bytes, newline, lines, split_lines}
use go_prod22_go_project.Store.Lines.Text.{text, AreWhole, text-append, lines-text}
use go_prod22_go_project.Store.Lines.Split.{has_bytes, split_lines_lem}
use go_prod22_go_project.Store.Json.{IsJson}
use go_prod22_go_project.Store.Disk.{Disk, call, plain, open_append, write, read_file, ◌>>=◌}
use go_prod22_go_project.Store.File.{FileStore, event_file, state_file, append, load, decode_lines}
use go_prod22_go_project.Store.Durable.Log.{content}

-- No call fails, and events are written as texts that are not empty and read back.
pub record Serves (f : FileStore) : Type 0 where
  pub faultless : (n : ℕ) → f.os.faults n ≡ none
  pub events : IsJson f.events
  pub encodes : (e : Event) → (b : Bytes) × (f.events.marshal e ≡ some b) × (has_bytes b ≡ true)

module _ (f : FileStore) where
  -- The appends of a list of events, one after the other.
  abbrev pub append_all : List Event → Disk → Disk
  append_all [] disk = disk
  append_all (e ∷ es) disk = append_all es (append f e disk).1

module _ (f : FileStore) (serves : Serves f) where
  abbrev bytes : Event → Bytes
  bytes e = (serves.encodes e).0

  abbrev written : List Event → List Bytes
  written [] = []
  written (e ∷ es) = bytes e ∷ written es

  written-AreWhole : (es : List Event) → AreWhole (written es)
  written-AreWhole [] = tt
  written-AreWhole (e ∷ es) =
      (serves.events.one_line e (bytes e) (serves.encodes e).1, written-AreWhole es)

  keep-written : (es : List Event) → keep has_bytes (written es) ≡ written es
  keep-written [] = refl
  keep-written (e ∷ es) = rw ((serves.encodes e).2) (ap (λ ls. bytes e ∷ ls) (keep-written es))

  decode-written : (es : List Event) → decode_lines f (written es) ≡ es
  unfolding decode_lines
  decode-written [] = refl
  decode-written (e ∷ es) =
      rw (serves.events.unmarshal-marshal e (bytes e) (serves.encodes e).1)
        (ap (λ l. e ∷ l) (decode-written es))

  -- The text of a log reads as its events.
  decode-text : (es : List Event) → decode_lines f (split_lines (text (written es))) ≡ es
  decode-text es =
      ap (decode_lines f) (
        split_lines_lem (text (written es))
        ∙ ap (keep has_bytes) (lines-text (written es) (written-AreWhole es))
        ∙ keep-written es)
      ∙ decode-written es

  written-append :
      (es : List Event) (e : Event) → written (es ++ e ∷ []) ≡ written es ++ bytes e ∷ []
  written-append [] e = refl
  written-append (x ∷ es) e = ap (λ l. bytes x ∷ l) (written-append es e)

  -- The log holds these events.
  abbrev pub Holds : List Event → Disk → Type 0
  Holds es disk = content (lookup event_file disk.files) ≡ text (written es)

  append_opened :
      (o : Option Bytes) (es : List Event) (e : Event) (disk : Disk)
      → lookup event_file disk.files ≡ o
      → Holds es disk
      → ((append f e disk).0 ≡ ok tt)
        × Holds (es ++ e ∷ []) (append f e disk).1
        × (lookup state_file (append f e disk).1.files ≡ lookup state_file disk.files)
  unfolding append plain call open_append write ◌>>=◌
  append_opened none es e disk at holds =
      let grown = ap text (written-append es e) ∙ text-append (written es) (bytes e) in
      let log : [] ≡ text (written es) = ap content (sym at) ∙ holds in
      rw
        (
          serves.faultless disk.calls,
          serves.faultless (suc disk.calls),
          serves.faultless (suc (suc disk.calls)),
          at,
          (serves.encodes e).1,
          lookup-insert event_file event_file [] disk.files,
        )
        (
          refl,
          rw
              (
                lookup-insert event_file event_file (bytes e ++ newline ∷ [])
                    (insert event_file [] disk.files),
                grown,
                sym log,
              )
              refl,
          rw
              (
                lookup-insert event_file state_file (bytes e ++ newline ∷ [])
                    (insert event_file [] disk.files),
                lookup-insert event_file state_file [] disk.files,
              )
              refl,
        )
  append_opened (some b) es e disk at holds =
      let grown = ap text (written-append es e) ∙ text-append (written es) (bytes e) in
      let log : b ≡ text (written es) = ap content (sym at) ∙ holds in
      rw
        (
          serves.faultless disk.calls,
          serves.faultless (suc disk.calls),
          serves.faultless (suc (suc disk.calls)),
          at,
          (serves.encodes e).1,
          at,
        )
        (
          refl,
          rw
              (
                lookup-insert event_file event_file (b ++ (bytes e ++ newline ∷ [])) disk.files,
                grown,
                log,
              )
              refl,
          rw (lookup-insert event_file state_file (b ++ (bytes e ++ newline ∷ [])) disk.files) refl,
        )

  append_all_lem :
      (es before : List Event) (disk : Disk)
      → Holds before disk
      → Holds (before ++ es) (append_all f es disk)
        × (lookup state_file (append_all f es disk).files ≡ lookup state_file disk.files)
  append_all_lem [] before disk h = (subst (λ l. Holds l disk) (sym (append-nil before)) h, refl)
  append_all_lem (e ∷ es) before disk h =
      let (returned, held, same) =
        append_opened (lookup event_file disk.files) before e disk refl h in
      let (all, still) = append_all_lem es (before ++ e ∷ []) (append f e disk).1 held in
      (
        subst (λ l. Holds l (append_all f es (append f e disk).1)) (append_assoc before (e ∷ []) es)
            all,
        still ∙ same,
      )

  load_held :
      (o : Option Bytes) (es : List Event) (disk : Disk)
      → lookup event_file disk.files ≡ o
      → lookup state_file disk.files ≡ none
      → Holds es disk
      → (load f disk).0 ≡ (empty_state, es, none)
  unfolding load read_file lines text
  load_held none es disk at no_state holds =
      let log : [] ≡ text (written es) = ap content (sym at) ∙ holds in
      let none_left : [] ≡ es = ap (λ b. decode_lines f (split_lines b)) log ∙ decode-text es in
      rw (serves.faultless disk.calls, no_state, serves.faultless (suc disk.calls), at)
        (ap (λ l. (empty_state, l, none)) none_left)
  load_held (some b) es disk at no_state holds =
      let log : b ≡ text (written es) = ap content (sym at) ∙ holds in
      rw (serves.faultless disk.calls, no_state, serves.faultless (suc disk.calls), at, log)
        (ap (λ l. (empty_state, l, none)) (decode-text es))

  -- Where no call fails and events are encoded as texts that read back: of any events that were appended
  -- to an empty directory, `Load` returns exactly these in their order, with the empty state and no error.
  pub load-append_all :
      (es : List Event) (calls : ℕ)
      → (load f (append_all f es (record { files = []; calls = calls }))).0
        ≡ (empty_state, es, none)
  unfolding lookup text
  load-append_all es calls =
      let disk : Disk = record { files = []; calls = calls } in
      let (held, same) = append_all_lem es [] disk refl in
      load_held (lookup event_file (append_all f es disk).files) es (append_all f es disk) refl same
        held
