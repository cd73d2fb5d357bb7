-- ===== src/Controller/Attention.antt =====
-- services/protocol-runner-api/src/controller.ts: why a parallel group needs attention, in words.
use protocol_runner.Common.{
  ◌-◌, String, Bool, true, false, ◌&&◌, ◌==◌, Option, none, some, List, [], ◌∷◌, keep, find, take,
  length, or_else, template, decimal, sort_by, ltb, if◌then◌else◌,
}
use protocol_runner.Store.Rows.{ItemStatus, AttemptStatus, ItemRow, AttemptRow}
use protocol_runner.Store.Tables.{Db, at_attempt, item_le}

abbrev item_status_name : ItemStatus → String
item_status_name ItemStatus.pending = "pending"
item_status_name ItemStatus.leased = "leased"
item_status_name ItemStatus.running = "running"
item_status_name ItemStatus.completed = "completed"
item_status_name ItemStatus.blocked = "blocked"
item_status_name ItemStatus.needs_recovery = "needs_recovery"
item_status_name ItemStatus.cancelled = "cancelled"
item_status_name ItemStatus.stopped = "stopped"

abbrev attempt_status_name : AttemptStatus → String
attempt_status_name AttemptStatus.created = "created"
attempt_status_name AttemptStatus.leased = "leased"
attempt_status_name AttemptStatus.running = "running"
attempt_status_name AttemptStatus.completed = "completed"
attempt_status_name AttemptStatus.blocked = "blocked"
attempt_status_name AttemptStatus.failed = "failed"
attempt_status_name AttemptStatus.cancelled = "cancelled"
attempt_status_name AttemptStatus.stale = "stale"
attempt_status_name AttemptStatus.timed_out = "timed_out"
attempt_status_name AttemptStatus.evidence_missing = "evidence_missing"
attempt_status_name AttemptStatus.output_missing = "output_missing"
attempt_status_name AttemptStatus.status_invalid = "status_invalid"

abbrev asks_attention : ItemStatus → Bool
asks_attention ItemStatus.blocked = true
asks_attention ItemStatus.needs_recovery = true
asks_attention _ = false

abbrev latest_attempt : Db → Option String → Option AttemptRow
latest_attempt db none = none
latest_attempt db (some id) = find (at_attempt id) db.attempts

-- An item with its latest attempt, whose status is shown before that of the item.
abbrev described : ItemRow → Option AttemptRow → String
described item none = template (
    item.item_id
    ∷ " [attempt="
    ∷ or_else item.latest_attempt_id "none"
    ∷ ", status="
    ∷ item_status_name item.status
    ∷ "]"
    ∷ [])
described item (some attempt) = template (
    item.item_id
    ∷ " [attempt="
    ∷ attempt.attempt_id
    ∷ ", status="
    ∷ attempt_status_name attempt.status
    ∷ "]"
    ∷ [])

-- `visibleItems.join('; ')`.
abbrev join_items : Db → List ItemRow → String
join_items db [] = ""
join_items db (item ∷ []) = described item (latest_attempt db item.latest_attempt_id)
join_items db (item ∷ other ∷ items) = template (
    described item (latest_attempt db item.latest_attempt_id)
    ∷ "; "
    ∷ join_items db (other ∷ items)
    ∷ [])

-- The items of a group in the order of their ids, as the store gives them.
abbrev attention_items : String → Db → List ItemRow
attention_items group_id db =
    sort_by item_le (keep (λ i. i.group_id == group_id && asks_attention i.status) db.items)

unfoldable pub parallel_group_attention_reason : String → Db → String
parallel_group_attention_reason group_id db = elim (attention_items group_id db) [
  | [] ↦ template (
      "Parallel group " ∷ group_id
      ∷ " needs attention; inspect group diagnostics for the owning attempt." ∷ [])
  | item ∷ items ↦
      let all_items = item ∷ items in
      template (
        "Parallel group "
        ∷ group_id
        ∷ " needs attention for "
        ∷ decimal (length all_items)
        ∷ " item(s): "
        ∷ join_items db (take 10 all_items)
        ∷ (if ltb 10 (length all_items)
            then template ("; +" ∷ decimal (length all_items - 10) ∷ " more" ∷ [])
            else "")
        ∷ [])
]
