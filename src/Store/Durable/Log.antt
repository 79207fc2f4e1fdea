-- ===== src/Store/Durable/Log.antt =====
-- The log of the durable store as a list of events.
use go_prod22_go_project.Prelude.{
  ℕ, suc, ◌+◌, Option, none, some, true, false, ◌==◌, ◌≡◌, refl, sym, ◌∙◌, List, [], ◌∷◌, ◌++◌,
  length, append-nil, append_assoc, arith, string_eq, int_eq, eqb_ℤ_iff, Option-cases, inl, inr,
}
use go_prod22_go_project.Prelude.Map.{Map, lookup, insert, lookup-insert}
use go_prod22_go_project.Events.{Event}
use go_prod22_go_project.Store.{State, empty_state}
use go_prod22_go_project.Store.Lines.{Bytes, newline, lines, drop_return}
use go_prod22_go_project.Store.Lines.Text.{text, AreWhole, drop_return_whole}
use go_prod22_go_project.Store.Json.{IsJson, has_break}
use go_prod22_go_project.Store.Disk.{Disk}
use go_prod22_go_project.Store.Durable.{
  DurableStore, SnapshotEnvelope, Reading, log_file, snapshot_file, decode, is_valid_event,
  read_records, counted,
}
use go_prod22_go_project.Store.Durable.Healthy.{appended}

abbrev pub content : Option Bytes → Bytes
content none = []
content (some b) = b

abbrev pub add_event : Option Event → List Event → List Event
add_event none es = es
add_event (some e) es = e ∷ es

module _ (d : DurableStore) where
  unfoldable pub decoded : List Bytes → List Event
  decoded [] = []
  decoded (l ∷ ls) = add_event (decode d (drop_return l)) (decoded ls)

  -- The events of the log, and the state of the snapshot.
  unfoldable pub logged : Disk → List Event
  logged disk = decoded (lines (content (lookup log_file disk.files)))

  abbrev pub opened : Option SnapshotEnvelope → State
  opened none = empty_state
  opened (some env) = env.state

  abbrev pub kept : Option Bytes → State
  kept none = empty_state
  kept (some b) = opened (d.snapshots.unmarshal b)

  abbrev pub AreSound : List Bytes → Type 0
  AreSound [] = Unit {0}
  AreSound (b ∷ bs) = (has_break b ≡ false) × ((e : Event) × (decode d b ≡ some e)) × AreSound bs

  abbrev pub IsSnapshot : Option Bytes → Type 0
  IsSnapshot none = Unit {0}
  IsSnapshot (some b) =
      (env : SnapshotEnvelope) × (d.snapshots.unmarshal b ≡ some env) × (env.version ≡ d.version)

  -- The log holds whole records, and the snapshot, where there is one, is one of this version.
  pub record Intact (disk : Disk) : Type 0 where
    pub records : List Bytes
    pub sound : AreSound records
    pub log : content (lookup log_file disk.files) ≡ text records
    pub snap : IsSnapshot (lookup snapshot_file disk.files)

  pub sound-AreWhole : (bs : List Bytes) → AreSound bs → AreWhole bs
  sound-AreWhole [] h = tt
  sound-AreWhole (b ∷ bs) h = (h.0, sound-AreWhole bs h.2)

  pub decoded-append :
      (bs : List Bytes) (b : Bytes) (e : Event)
      → has_break b ≡ false
      → decode d b ≡ some e
      → decoded (bs ++ b ∷ []) ≡ decoded bs ++ e ∷ []
  unfolding decoded
  decoded-append [] b e w h = rw (drop_return_whole b w, h) refl
  decoded-append (c ∷ bs) b e w h =
      rw (decoded-append bs b e w h) (add_last (decode d (drop_return c)) (decoded bs) e)
    where
      add_last :
          (o : Option Event) (es : List Event) (e : Event)
          → add_event o (es ++ e ∷ []) ≡ add_event o es ++ e ∷ []
      add_last none es e = refl
      add_last (some x) es e = refl

  pub AreSound-append :
      (bs : List Bytes) (b : Bytes) (e : Event)
      → AreSound bs
      → has_break b ≡ false
      → decode d b ≡ some e
      → AreSound (bs ++ b ∷ [])
  AreSound-append [] b e h w k = (w, (e, k), tt)
  AreSound-append (c ∷ bs) b e h w k = (h.0, h.1, AreSound-append bs b e h.2 w k)

  -- A record that was written is read back.
  pub decode_record :
      (json : IsJson d.records) (e : Event) (b : Bytes)
      → is_valid_event e ≡ true
      → d.records.marshal (record { version = d.version; event = e }) ≡ some b
      → (decode d b ≡ some e) × (has_break b ≡ false)
  unfolding decode
  decode_record json e b valid encoded =
      let same : (d.version == d.version) ≡ true = (eqb_ℤ_iff d.version d.version).1 refl in
      let named : (e.id == "") ≡ false = ground arith in
      (rw (json.unmarshal-marshal _ b encoded, same, named) refl, json.one_line _ b encoded)

  -- The files after an append: the record stands at the log's end, and the snapshot is as before.
  pub appended_log :
      (b : Bytes) (files : Map Bytes)
      → content (lookup log_file (appended b files))
        ≡ content (lookup log_file files) ++ (b ++ newline ∷ [])
  appended_log b files = elim (Option-cases (lookup log_file files)) [
    | inl p ↦
        rw (p, lookup-insert log_file log_file [] files)
          (rw (lookup-insert log_file log_file (b ++ newline ∷ []) (insert log_file [] files)) refl)
    | inr (c, p) ↦
        rw (p, p) (rw (lookup-insert log_file log_file (c ++ (b ++ newline ∷ [])) files) refl)
  ]

  pub appended_snapshot :
      (b : Bytes) (files : Map Bytes)
      → lookup snapshot_file (appended b files) ≡ lookup snapshot_file files
  appended_snapshot b files = elim (Option-cases (lookup log_file files)) [
    | inl p ↦
        rw (p, lookup-insert log_file log_file [] files)
          (rw
            (
              lookup-insert log_file snapshot_file (b ++ newline ∷ []) (insert log_file [] files),
              lookup-insert log_file snapshot_file [] files,
            )
            refl)
    | inr (c, p) ↦
        rw (p, p) (rw (lookup-insert log_file snapshot_file (c ++ (b ++ newline ∷ [])) files) refl)
  ]

  -- The loop reads sound records to their end.
  pub read_records_lem :
      (bs : List Bytes) (offset : ℕ) (r : Reading)
      → AreSound bs
      → ((read_records d bs offset r).events ≡ r.events ++ decoded bs)
        × ((read_records d bs offset r).cut ≡ r.cut)
        × ((read_records d bs offset r).report.corrupt_records ≡ r.report.corrupt_records)
        × ((read_records d bs offset r).report.events_read ≡ r.report.events_read + length bs)
  unfolding read_records decoded
  read_records_lem [] offset r h = (sym (append-nil r.events), refl, refl, omega arith)
  read_records_lem (b ∷ bs) offset r h =
      let (e, k) = h.1 in
      let (events, cut, corrupt, count) =
        read_records_lem bs (offset + length b + 1) (counted d (offset + length b + 1) e r) h.2 in
      let more : r.report.events_read + 1 + length bs ≡ r.report.events_read + suc (length bs) =
        omega arith in
      let joined = append_assoc r.events (e ∷ []) (decoded bs) in
      rw (drop_return_whole b h.0, k) (events ∙ joined, cut, corrupt, omega (arith, count))
