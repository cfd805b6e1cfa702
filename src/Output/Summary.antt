-- ===== src/Output/Summary.antt =====
-- internal/output/summary.go: the counters and the text of the summary.
pub mod Counts
pub mod Top
mod Tests
use amqp_routing_inspector.Base.{
  ℕ, zero, suc, ◌+◌, Bool, true, false, not, ◌&&◌, List, [], ◌∷◌, ◌++◌, map, Option, none, some,
  nat_eq, list_eq, ◌==◌, is_nil, take, if◌then◌else◌,
}
use amqp_routing_inspector.Base.Int.{ltb_ℤ, int_eq, is_positive}
use amqp_routing_inspector.Base.Text.{Text, codes, to_lower, text_ltb, pad_left, pad_right}
use amqp_routing_inspector.Base.Decimal.{increment, signed, print_nat, print_int64}
use amqp_routing_inspector.Base.Tally.{bump}
use amqp_routing_inspector.Base.Order.{sort, by_key}
use amqp_routing_inspector.Model.{QueueDestination, RoutingTrace, resolved}

-- The counts are the bit patterns of an int. `written` holds what was written.
pub record SummaryRenderer : Type 0 where
  pub closed : Bool
  pub total_events : ℕ
  pub publish_events : ℕ
  pub deliver_events : ℕ
  pub unrouted : ℕ
  pub exchanges : List (Text × ℕ)
  pub queues : List (Text × ℕ)
  pub routing_keys : List (Text × ℕ)
  pub written : List Text

-- newSummaryRenderer
abbrev pub new_summary_renderer : SummaryRenderer
new_summary_renderer = record {
  closed = false;
  total_events = 0;
  publish_events = 0;
  deliver_events = 0;
  unrouted = 0;
  exchanges = [];
  queues = [];
  routing_keys = [];
  written = [];
}

pub data SummaryError : Type 0 where
  summary_is_closed : SummaryError

abbrev pub has_type : Text → RoutingTrace → Bool
has_type event_type trace = to_lower trace.event.event_type == event_type

unfoldable pub summary_exchange : RoutingTrace → Text
summary_exchange trace =
    let exchange = trace.event.exchange_name in
    if is_nil exchange then codes "(unknown-exchange)" else exchange

unfoldable pub summary_queue : QueueDestination → Text
summary_queue dest = if is_nil dest.queue_name then codes "(unknown-queue)" else dest.queue_name

unfoldable pub is_unrouted : RoutingTrace → Bool
unfolding resolved to_lower
is_unrouted trace = is_nil (resolved trace) && has_type (codes "publish") trace

-- `if test { count++ }`
abbrev pub increment_if : Bool → ℕ → ℕ
increment_if test count = if test then increment count else count

-- The loop over the destinations.
unfoldable pub count_queues : List QueueDestination → List (Text × ℕ) → List (Text × ℕ)
unfolding bump summary_queue
count_queues [] m = m
count_queues (dest ∷ dests) m = count_queues dests (bump (summary_queue dest) m)

-- The counting of RenderTrace.
unfoldable pub count_trace : SummaryRenderer → RoutingTrace → SummaryRenderer
unfolding to_lower bump summary_exchange is_unrouted count_queues resolved increment
count_trace r trace = record r {
  total_events = increment r.total_events;
  publish_events = increment_if (has_type (codes "publish") trace) r.publish_events;
  deliver_events = increment_if (has_type (codes "deliver") trace) r.deliver_events;
  exchanges = bump (summary_exchange trace) r.exchanges;
  unrouted = increment_if (is_unrouted trace) r.unrouted;
  queues = count_queues (resolved trace) r.queues;
  routing_keys =
      if is_nil trace.event.routing_key
      then r.routing_keys
      else bump trace.event.routing_key r.routing_keys;
}

-- RenderTrace
unfoldable pub render_trace : SummaryRenderer → RoutingTrace → SummaryRenderer × Option SummaryError
unfolding count_trace
render_trace r trace = if r.closed then (r, some summary_is_closed) else (count_trace r trace, none)

-- A countEntry: the name and the bit pattern of the count.
abbrev pub CountEntry : Type 0
CountEntry = Text × ℕ

-- The comparison in writeTopN: the larger count first, then the smaller name.
unfoldable pub entry_less : CountEntry → CountEntry → Bool
unfolding text_ltb
entry_less = by_key (λ e. signed e.1) (λ a b. ltb_ℤ b a) (λ a b. text_ltb a.0 b.0)

-- The entries that writeTopN shows.
unfoldable pub top_entries : List (Text × ℕ) → ℕ → List CountEntry
unfolding sort entry_less
top_entries counts n = take n (sort entry_less counts)

-- The texts that fmt makes of floating-point numbers and durations: "%5.1f" of the share of a count
-- in a total, "%.1f" of a number of events by the time passed, and the rounded time passed.
pub record Figures : Type 0 where
  pub percent : ℕ → ℕ → Text
  pub rate : ℕ → Text
  pub elapsed : Text

module _ (figures : Figures) where
  open figures use {percent, rate, elapsed}

  abbrev pub share : ℕ → ℕ → Text
  share count total = if is_positive (signed total) then percent count total else codes "  0.0"

  -- One line of writeTopN; `i` is the loop's index.
  unfoldable pub entry_line : ℕ → ℕ → CountEntry → Text
  unfolding pad_left pad_right print_nat print_int64
  entry_line total i (name, count) =
      codes "  "
      ++ (pad_left 2 (print_nat (i + 1))
          ++ (codes ". "
              ++ (pad_right 40 name
                  ++ (codes " "
                      ++ (pad_left 6 (print_int64 count)
                          ++ (codes "  (" ++ (share count total ++ codes "%)\n")))))))

  unfoldable pub entry_lines : ℕ → ℕ → List CountEntry → Text
  unfolding entry_line
  entry_lines total i [] = []
  entry_lines total i (entry ∷ entries) =
      entry_line total i entry ++ entry_lines total (i + 1) entries

  -- writeTopN
  unfoldable pub write_top_n : Text → List (Text × ℕ) → ℕ → ℕ → Text
  unfolding entry_lines top_entries
  write_top_n header counts total n =
      if is_nil counts
      then []
      else codes "\n" ++ (header ++ (codes ":\n" ++ entry_lines total 0 (top_entries counts n)))

  unfoldable pub unrouted_line : ℕ → Text
  unfolding print_int64
  unrouted_line n =
      if is_positive (signed n) then codes "Unrouted:     " ++ (print_int64 n ++ codes "\n") else []

  -- What Close writes.
  unfoldable pub summary_text : SummaryRenderer → Text
  unfolding write_top_n unrouted_line print_int64
  summary_text r =
      codes "\n=== Routing Summary ===\n"
      ++ (codes "Duration:     "
          ++ (elapsed
              ++ (codes "\nTotal events: "
                  ++ (print_int64 r.total_events
                      ++ (codes "  (publish: "
                          ++ (print_int64 r.publish_events
                              ++ (codes "  deliver: "
                                  ++ (print_int64 r.deliver_events
                                      ++ (codes "  rate: "
                                          ++ (rate r.total_events
                                              ++ (codes "/s)\n"
                                                  ++ (unrouted_line r.unrouted
                                                      ++ (write_top_n (codes "Top Exchanges")
                                                            r.exchanges r.total_events 10
                                                          ++ (write_top_n (codes "Top Queues")
                                                            r.queues r.total_events 10
                                                            ++ write_top_n
                                                            (codes "Top Routing Keys")
                                                            r.routing_keys r.total_events
                                                            10))))))))))))))

  -- Close, which returns no error.
  unfoldable pub close : SummaryRenderer → SummaryRenderer
  unfolding summary_text
  close r =
      if r.closed then r else record r { closed = true; written = r.written ++ summary_text r ∷ [] }
