-- ===== src/Output/Summary/Tests.antt =====
-- The counting of some traces, and the theorems at them.
use mathlib.Core.List.{Perm, reverse_perm, Nodup-nil}
use mathlib.Core.List.Perm
use Prim.Native.Nat.{min}
use amqp_routing_inspector.Base.{
  ℕ, ◌%◌, List, [], ◌∷◌, ◌++◌, ◌≡◌, refl, map, reverse, nat_eq, list_eq, list_beq, length,
}
use amqp_routing_inspector.Base.Text.{Text, codes}
use amqp_routing_inspector.Base.Decimal.{word, increment}
use amqp_routing_inspector.Base.Tally.{tally, occurrences, bump_all, keys-bump_all-Nodup}
use amqp_routing_inspector.Base.Order.{IsAscending}
use amqp_routing_inspector.Model.{RoutingTrace, plain_event, to_queue}
use amqp_routing_inspector.Output.Summary.{
  CountEntry, new_summary_renderer, has_type, is_unrouted, summary_exchange, entry_less,
  top_entries,
}
use amqp_routing_inspector.Output.Summary.Counts.{
  render_traces, all_queues, all_routing_keys, how_many, render_traces-new_summary_renderer,
}
use amqp_routing_inspector.Output.Summary.Top.{AllBelow, top_entries_lem}

abbrev orders : RoutingTrace
orders = record {
  event = plain_event (codes "orders") (codes "publish") (codes "order.created");
  destinations = to_queue (codes "payments.q") ∷ to_queue [] ∷ [];
}

abbrev lost : RoutingTrace
lost = record {
  event = plain_event (codes "audit") (codes "Publish") (codes "a");
  destinations = [];
}

abbrev traces : List RoutingTrace
traces = orders ∷ lost ∷ orders ∷ []

render_traces-new_summary_renderer_example :
    ((render_traces new_summary_renderer traces).total_events ≡ length traces % word)
    × ((render_traces new_summary_renderer traces).publish_events
        ≡ how_many (has_type (codes "publish")) traces % word)
    × ((render_traces new_summary_renderer traces).deliver_events
        ≡ how_many (has_type (codes "deliver")) traces % word)
    × ((render_traces new_summary_renderer traces).unrouted ≡ how_many is_unrouted traces % word)
    × (tally (codes "orders") (render_traces new_summary_renderer traces).exchanges
        ≡ occurrences (codes "orders") (map summary_exchange traces) % word)
    × (tally (codes "orders") (render_traces new_summary_renderer traces).queues
        ≡ occurrences (codes "orders") (all_queues traces) % word)
    × (tally (codes "orders") (render_traces new_summary_renderer traces).routing_keys
        ≡ occurrences (codes "orders") (all_routing_keys traces) % word)
render_traces-new_summary_renderer_example =
    render_traces-new_summary_renderer traces (codes "orders")

abbrev counts : List (Text × ℕ)
counts = bump_all (codes "b" ∷ codes "c" ∷ codes "c" ∷ codes "a" ∷ []) []

-- The larger count stands first, then the smaller name.
two_shown : top_entries counts 2 ≡ (codes "c", 2) ∷ (codes "a", 1) ∷ []
unfolding top_entries list_beq bump_all increment
two_shown = refl

top_entries_lem_example :
    (left_out : List CountEntry) × IsAscending entry_less (top_entries counts 2)
    × AllBelow (top_entries counts 2) left_out
    × Perm (top_entries counts 2 ++ left_out) counts
    × (length (top_entries counts 2) ≡ min 2 (length counts))
    × (top_entries (reverse counts) 2 ≡ top_entries counts 2)
top_entries_lem_example =
    top_entries_lem counts (reverse counts) 2
      (keys-bump_all-Nodup (codes "b" ∷ codes "c" ∷ codes "c" ∷ codes "a" ∷ []) [] Nodup-nil)
      (Perm.symm (reverse_perm counts))
