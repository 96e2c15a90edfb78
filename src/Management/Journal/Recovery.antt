-- ===== src/Management/Journal/Recovery.antt =====
-- `recover` of crates/management/src/journal.rs: what is left queued or running.
use agent_response_gateway.Base.{
  ◌≡◌, ◌≢◌, sym, ap, ◌∙◌, false, some, List, [], ◌∷◌, ◌==◌, Bool-cases, eq_of_==, Result-split, inl,
  inr, text_eq, Text, All, ok, ok-injective,
}
use mathlib.Core.Path.{subst}
use agent_response_gateway.Management.Contract.{
  Operation, State, state_eq, Identifier, id_eq, new_id, Externals,
}
use agent_response_gateway.Management.Journal.Store.{Db, OperationRow, operation_row, event_rows}
use agent_response_gateway.Management.Journal.Recorded.{recorded}
use agent_response_gateway.Management.Journal.Machine.{Journal}
use agent_response_gateway.Management.Journal.Writer.{
  row_state, is_unsettled, unsettled, settle_all, recover,
}
use agent_response_gateway.Management.Journal.Growth.{Extends}
use agent_response_gateway.Management.Journal.Replayed.{recorded-Found}
use agent_response_gateway.Management.Journal.Kept.{
  Grows, Grows-trans, IsReadable, operation_row-All,
}
use agent_response_gateway.Management.Journal.Triples.{Post, continue-Post, Post-weaken}
use agent_response_gateway.Management.Journal.Once.{Fits, Inv, Since}
use agent_response_gateway.Management.Journal.Settling.{SettledAt, settle_interrupted-Post}
use agent_response_gateway.Management.Journal.Entry.{From-refl}
use agent_response_gateway.Management.Journal.Reach.{Reach, Reach-Inv, empty_journal}
use agent_response_gateway.Management.Journal.Quiet.{
  IsQuiet, recorded-row_state, state-IsQuiet, QuietIn, QuietIn-Grows, not_queued, not_running,
}

-- Neither queued nor running.

module _ (x : Externals) (fits : Fits x) where
  -- What is so after the operations with these identifiers were settled.
  abbrev Quiet : Journal → Text → Type 0
  Quiet j text = (id : Identifier) → new_id text ≡ ok id → QuietIn x j.db id

  record Settled (before : Db) (texts : List Text) (j : Journal) : Type 0 where
    since : Since x before j
    all_quiet : All (Quiet j) texts

  settle_all-Settled :
      (texts : List Text) (j : Journal)
      → Inv x j.db j.effects
      → Post (λ _. Settled j.db texts) (λ _. Unit {0}) (settle_all x texts j)
  unfolding settle_all
  settle_all-Settled [] j inv = record { since = From-refl x j inv; all_quiet = tt }
  settle_all-Settled (text ∷ texts) j inv = elim (Result-split (new_id text)) [
    | inr (e, bad) ↦ rw bad tt
    | inl (id, is_id) ↦ rw is_id (
        continue-Post (SettledAt x fits j.db id j.effects) (λ _. Settled j.db (text ∷ texts))
          (λ _. Unit {0}) (λ _. settle_all x texts) _
          (Post-weaken (SettledAt x fits j.db id j.effects) (λ _. Unit {0})
            (SettledAt x fits j.db id j.effects) (Since x j.db) _
            (settle_interrupted-Post x fits j.db j id (From-refl x j inv)) (λ op k s. s)
            (λ k e. tt))
          (λ op k s.
            Post-weaken (λ _. Settled j.db (text ∷ texts)) (λ _. Unit {0}) (λ _. Settled k.db texts)
              (λ _. Unit {0}) _ (settle_all-Settled texts k s.since.inv)
              (λ _ l t. extend id is_id op k s l t) (λ l e. e)))
  ]
    where
      extend :
          (id : Identifier)
          → new_id text ≡ ok id
          → (op : Operation) (k : Journal) → SettledAt x fits j.db id j.effects op k
          → (l : Journal) → Settled k.db texts l
          → Settled j.db (text ∷ texts) l
      extend id is_id op k s l t = record {
        since = record { inv = t.since.inv; grows = Grows-trans x s.since.grows t.since.grows };
        all_quiet = (
          λ id' is_id'.
              let same_id : id ≡ id' = ok-injective (sym is_id ∙ is_id') in
              subst (QuietIn x l.db) same_id (
                QuietIn-Grows x t.since.grows
                  (record { operation = op; reads = s.reads; quiet = s.is_settled })),
          t.all_quiet,
        );
      }

  -- The identifiers that recovery settles, and the operations that need it.
  found_in :
      (db : Db) (k : Journal) (rows : List OperationRow) (row : OperationRow) (id : Identifier)
      (op : Operation)
      → operation_row id.value rows ≡ some row
      → new_id row.id ≡ ok id
      → recorded x db id ≡ ok op
      → Grows x db k.db
      → All (Quiet k) (unsettled db.events rows)
      → QuietIn x k.db id
  unfolding operation_row unsettled
  found_in db k [] row id op f n h g q = absurd (cc)
  found_in db k (r ∷ rows) row id op f n h g q =
      elim (Bool-cases (is_unsettled (row_state (event_rows r.id db.events)))) [
        | inl due ↦
            let q' : All (Quiet k) (r.id ∷ unsettled db.events rows) = rw due at q in
            elim (Bool-cases (r.id == id.value)) [
              | inl own ↦
                  let found : some r ≡ some row = rw own at f in
                  let is_row : r ≡ row = cc in q'.0 id (rw is_row n)
              | inr other ↦
                  let later : operation_row id.value rows ≡ some row = rw other at f in
                  found_in db k rows row id op later n h g q'.1
            ]
        | inr calm ↦
            let q' : All (Quiet k) (unsettled db.events rows) = rw calm at q in
            elim (Bool-cases (r.id == id.value)) [
              | inl own ↦
                  let is_id = eq_of_== r.id id.value own in
                  let last = recorded-row_state x db id op h in
                  let calm' : is_unsettled (some op.state) ≡ false =
                    sym
                      (ap is_unsettled (ap (λ t. row_state (event_rows t db.events)) is_id ∙ last))
                    ∙ calm in
                  QuietIn-Grows x g
                    (record { operation = op; reads = h; quiet = state-IsQuiet x op.state calm' })
              | inr other ↦
                  let later : operation_row id.value rows ≡ some row = rw other at f in
                  found_in db k rows row id op later n h g q'
            ]
      ]

  calm_again :
      (j k : Journal) (id : Identifier) (op : Operation)
      → Inv x j.db j.effects
      → Settled j.db (unsettled j.db.events j.db.operations) k
      → recorded x j.db id ≡ ok op
      → (after : Operation) × (recorded x k.db id ≡ ok after)
        × Extends op after
        × IsQuiet after.state
  calm_again j k id op inv t h =
      let f = recorded-Found x j.db id op h in
      let (readable, is_text) =
        operation_row-All (IsReadable x j.db) id.value j.db.operations f.row inv.kept.readable
          f.at_row in
      let same_id : readable.id ≡ id = λ i. record { value = (readable.is_value ∙ is_text) i } in
      let q =
        found_in j.db k j.db.operations f.row id op f.at_row (readable.is_id ∙ ap ok same_id) h
          t.since.grows t.all_quiet in
      let (after, reads, e) = t.since.grows.at id op h in
      let same_op : q.operation ≡ after = ok-injective (sym q.reads ∙ reads) in
      (after, reads, e, subst (λ (o : Operation). IsQuiet o.state) same_op q.quiet)

  -- After a recovery that succeeds, on a journal that any calls reach from a new one, every operation that was recorded is recorded with the same intent and only valid events added, and is neither queued nor running.
  pub recover-settles :
      {j : Journal} (k : Journal)
      → Reach x empty_journal j
      → recover x j ≡ (ok tt, k)
      → (id : Identifier) (op : Operation) → recorded x j.db id ≡ ok op
      → (after : Operation) × (recorded x k.db id ≡ ok after)
        × Extends op after
        × (after.state ≢ State.queued)
        × (after.state ≢ State.running)
  unfolding recover
  recover-settles {j} k r done id op h =
      let inv = Reach-Inv x fits r in
      let texts = unsettled j.db.events j.db.operations in
      let t : Settled j.db texts k =
        subst (Post (λ _. Settled j.db texts) (λ _. Unit {0})) done
          (settle_all-Settled texts j inv) in
      let (after, reads, e, quiet) = calm_again j k id op inv t h in
      (after, reads, e, not_queued after.state quiet, not_running after.state quiet)
