-- ===== src/Core/Validation/Groups.antt =====
-- packages/protocol-runner-core/src/validation.ts: `validateParallelGroupStep`.
use Prim.Native.String.{String}
use mathlib.Core.List.{List, [], ◌∷◌, ◌++◌}
use protocol_runner.Common.{is_empty_list}
use protocol_runner.Core.Types.{Value, Fields, arr, cons, ValidationIssue}
use protocol_runner.Core.Completion.{get}
use protocol_runner.Core.Validation.{fail, at, entries, sealed_defaults_issues}
use protocol_runner.Core.Validation.Capabilities.{is_source_writer, group_field_issues}
use protocol_runner.Core.Validation.SourcePaths.{Map, GroupContext, ItemWalk}
use protocol_runner.Core.Validation.GroupItems.{walk_items}

unfoldable pub group_context : Fields → String → GroupContext
unfolding sealed_defaults_issues
group_context fs path = record {
  source_writer = is_source_writer fs;
  defaults_ok = is_empty_list (
      sealed_defaults_issues (get "sealed_output_defaults" fs) (at path ".sealed_output_defaults"));
  defaults = get "sealed_output_defaults" fs;
}

module _ (lower : String → String) where
  -- The items of the group, from the given issues and targets.
  unfoldable pub group_items : Value → Fields → String → List ValidationIssue → Map → ItemWalk
  unfolding group_context walk_items
  group_items (arr (cons v vs)) fs path issues targets =
      walk_items lower (group_context fs path) (at path ".items") 0 (v ∷ entries vs)
        (record { issues = issues; item_ids = []; owners = []; targets = targets })
  group_items v fs path issues targets = record {
    issues =
        issues
        ++ fail "parallel_group.items" (at path ".items")
            "parallel_group items must be a non-empty array.";
    item_ids = [];
    owners = [];
    targets = targets;
  }

  unfoldable pub validate_parallel_group_step :
      Fields → String → List ValidationIssue → Map → ItemWalk
  unfolding group_field_issues group_items
  validate_parallel_group_step fs path issues targets =
      group_items (get "items" fs) fs path (issues ++ group_field_issues fs path) targets
