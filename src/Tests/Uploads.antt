-- ===== src/Tests/Uploads.antt =====
-- The upload workers on two blocks.
use c_stateless_relay_tran.Base.{zero, suc, ◌≤◌, ◌≡◌, refl, true, none, List, [], ◌∷◌, arith}
use c_stateless_relay_tran.Base.StringMap
use text.Mathlib.TextEquality.{eq_iff}
use c_stateless_relay_tran.Resilience.Ramp.{resolve_ramped_stripe_concurrency}
use c_stateless_relay_tran.Registry.Records.{RelayEndpoint}
use c_stateless_relay_tran.Upload.Stripe.{
  Job, Event, goes_on, polls, resolves, run, start, slot_limit,
}
use c_stateless_relay_tran.Upload.Stripe.Accounting.{in_flight_limit, all_returned_complete}
use c_stateless_relay_tran.Upload.Stripe.Order.{AllRouted, upto, puts_in_order}
use c_stateless_relay_tran.Upload.Stripe.Ramping.{go_on_from, ramp_overrun}

abbrev to_relay : RelayEndpoint
to_relay = record { url = "https://a/t"; headers = none; fallbacks = none }

abbrev two_blocks : Job
two_blocks = record {
  entries = ("t", 1 ∷ 2 ∷ []) ∷ ("u", 3 ∷ []) ∷ [];
  primary_endpoints = ("t", to_relay) ∷ ("u", to_relay) ∷ [];
  max_concurrency = 6;
  ramp_concurrency = true;
  put_transient_max_attempts = 8;
}

two_blocks-AllRouted : AllRouted two_blocks
unfolding StringMap.get
two_blocks-AllRouted zero token blob e = (to_relay, ground (arith, eq_iff "t" token))
two_blocks-AllRouted (suc zero) token blob e = (to_relay, ground (arith, eq_iff "u" token))
two_blocks-AllRouted (suc (suc i)) token blob e = ground arith

abbrev both_sent : List Event
both_sent = goes_on 0 ∷ goes_on 1 ∷ resolves 1 ∷ goes_on 1 ∷ polls 0 ∷ resolves 0 ∷ goes_on 0 ∷ []

in_flight_limit_example :
    ((run two_blocks (start two_blocks) both_sent).in_flight ≤ 6)
    × ((run two_blocks (start two_blocks) both_sent).in_flight ≤ 2)
in_flight_limit_example = in_flight_limit two_blocks both_sent

all_returned_complete_example :
    ((run two_blocks (start two_blocks) both_sent).completed ≡ 2)
    × ((run two_blocks (start two_blocks) both_sent).completed_bytes ≡ 3)
    × ((run two_blocks (start two_blocks) both_sent).in_flight ≡ 0)
unfolding run start resolve_ramped_stripe_concurrency StringMap.get
all_returned_complete_example = all_returned_complete two_blocks both_sent (omega arith) refl

puts_in_order_example :
    (run two_blocks (start two_blocks) both_sent).puts
    ≡ upto (run two_blocks (start two_blocks) both_sent).next_index
puts_in_order_example = puts_in_order two_blocks both_sent two_blocks-AllRouted

ramp_overrun_example :
    (slot_limit two_blocks 0 ≡ 1)
    × ((run two_blocks (start two_blocks) (go_on_from 0 2)).in_flight ≡ 2)
ramp_overrun_example = ramp_overrun two_blocks two_blocks-AllRouted refl (omega arith)
