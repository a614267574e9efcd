-- ===== src/Tests/Framing.antt =====
-- Framing, deadlines, the registry and the loop at concrete inputs.
use u_rpc.Prelude.{
  ℕ, suc, ◌*◌, ◌/◌, ◌^◌, ◌≤◌, ◌≡◌, refl, true, false, none, some, List, [], ◌∷◌, ◌++◌, arith,
}
use u_rpc.Prelude.Str.{Str, codes, to_string, str_eq}
use u_rpc.Prelude.Map.{find, insert}
use u_rpc.Status.{ok_status, is_ok}
use u_rpc.Codec.{new_decoder, consume, halt, debt, buffered, encode_frame}
use u_rpc.Codec.Feed.{feed, joined, feed-joined}
use u_rpc.Codec.Fuel.{rounds, consume_halts}
use u_rpc.Codec.RoundTrip.{frames, feed-frames}
use u_rpc.Codec.Bounds.{IsBounded, consume-IsBounded}
use u_rpc.Prelude.Number.{stoull}
use u_rpc.Timeout.{in_unit, parse_grpc_timeout}
use u_rpc.Timeout.Units.{hours, byte_of, nanoseconds, parse_grpc_timeout_exact}
use u_rpc.Router.{
  new_router, find_path, register, unary_at, stream_at, bidi, Registration, find_handler,
}
use u_rpc.Router.Refines.{admit_all, results, results-refine}
use u_rpc.Loop.{Loop, new_loop, start, set_timer, fire_timer, cancel_timer, stop, close_all_handles}
use u_rpc.Loop.Timers.{apply, set, fire, apply_all, HasFreshIds, apply-HasFreshIds, fires_once}
use u_rpc.Loop.Order.{posts, wakes, run, handed, run_in_order, stop_forgets, QueueOp}

abbrev two_messages : List Str
two_messages = (1 ∷ 2 ∷ []) ∷ [] ∷ []

abbrev three_pieces : List Str
three_pieces = (0 ∷ 0 ∷ 0 ∷ []) ∷ (0 ∷ 2 ∷ 1 ∷ []) ∷ (2 ∷ 0 ∷ 0 ∷ 0 ∷ 0 ∷ 0 ∷ []) ∷ []

feed-frames_example :
    feed (new_decoder 8) three_pieces
    ≡ (ok_status, record (new_decoder 8) { messages = two_messages })
unfolding joined frames encode_frame
feed-frames_example = feed-frames 8 two_messages three_pieces (omega arith) refl

parse_grpc_timeout_exact_example :
    parse_grpc_timeout (to_string 2 ++ byte_of hours ∷ []) ≡ 2 * nanoseconds hours / 10 ^ 6
parse_grpc_timeout_exact_example = parse_grpc_timeout_exact hours 2 (omega arith)

-- "100m" is 100 milliseconds.
parse_100m : parse_grpc_timeout (codes "100m") ≡ 100
unfolding parse_grpc_timeout stoull in_unit
parse_100m = refl

consume-IsBounded_example : IsBounded (consume (new_decoder 8) (0 ∷ 0 ∷ 0 ∷ 0 ∷ 9 ∷ 1 ∷ [])).1
unfolding new_decoder
consume-IsBounded_example =
    consume-IsBounded (new_decoder 8) (0 ∷ 0 ∷ 0 ∷ 0 ∷ 9 ∷ 1 ∷ [])
      (record { announced = λ e. cc; received = tt })

feed-joined_example :
    ((feed (new_decoder 8) three_pieces).0 ≡ (consume (new_decoder 8) (joined three_pieces)).0)
    × (is_ok (consume (new_decoder 8) (joined three_pieces)).0 ≡ true
        → feed (new_decoder 8) three_pieces ≡ consume (new_decoder 8) (joined three_pieces))
unfolding consume new_decoder
feed-joined_example = feed-joined (new_decoder 8) three_pieces refl

consume_halts_example :
    (n : ℕ) × (n ≤ suc (debt (buffered (new_decoder 8) (0 ∷ 0 ∷ 0 ∷ 0 ∷ 1 ∷ 7 ∷ 0 ∷ []))))
    × (rounds n (buffered (new_decoder 8) (0 ∷ 0 ∷ 0 ∷ 0 ∷ 1 ∷ 7 ∷ 0 ∷ []))
        ≡ halt
            (consume (new_decoder 8) (0 ∷ 0 ∷ 0 ∷ 0 ∷ 1 ∷ 7 ∷ 0 ∷ [])).0
            (consume (new_decoder 8) (0 ∷ 0 ∷ 0 ∷ 0 ∷ 1 ∷ 7 ∷ 0 ∷ [])).1)
consume_halts_example = consume_halts (new_decoder 8) (0 ∷ 0 ∷ 0 ∷ 0 ∷ 1 ∷ 7 ∷ 0 ∷ [])

-- A method, the same path again, and a path without its slash.
abbrev three_registrations : List Registration
three_registrations =
    unary_at (codes "/s/m") (some 7)
    ∷ stream_at (codes "/s/m") bidi (some 8)
    ∷ unary_at (codes "s/n") (some 9)
    ∷ []

results_of_three : (results new_router three_registrations).0 ≡ true ∷ false ∷ false ∷ []
unfolding results new_router register find_path str_eq
results_of_three = refl

results-refine_example :
    ((results new_router three_registrations).0
      ≡ (admit_all (find_handler new_router) three_registrations).0)
    × (find_handler (results new_router three_registrations).1
        ≡ (admit_all (find_handler new_router) three_registrations).1)
results-refine_example = results-refine three_registrations new_router

abbrev fresh_loop : Loop ℕ
fresh_loop = new_loop

run_in_order_example :
    (run (posts (some 4) ∷ wakes ∷ posts (some 5) ∷ []) ([], fresh_loop)).0
      ++ (run (posts (some 4) ∷ wakes ∷ posts (some 5) ∷ []) ([], fresh_loop)).1.pending
    ≡ [] ++ (fresh_loop.pending ++ handed (posts (some 4) ∷ wakes ∷ posts (some 5) ∷ []))
run_in_order_example = run_in_order (posts (some 4) ∷ wakes ∷ posts (some 5) ∷ []) [] fresh_loop

abbrev running : Loop ℕ
running = (start true true new_loop).1

-- Task 4 has run, task 5 waits when Stop comes, task 6 is posted behind it.
abbrev ops_before : List (QueueOp ℕ)
ops_before = posts (some 4) ∷ wakes ∷ posts (some 5) ∷ []

abbrev ops_behind : List (QueueOp ℕ)
ops_behind = posts (some 6) ∷ wakes ∷ []

stop_forgets_example :
    let (ran, l1) = run ops_before ([], running) in
    (run ops_behind (ran, stop l1)).0 ++ (run ops_behind (ran, stop l1)).1.pending
    ≡ ran ++ close_all_handles ∷ handed ops_behind
unfolding start new_loop
stop_forgets_example = stop_forgets ops_before ops_behind running refl

-- A timer of task 4 is armed as 1.
abbrev armed : Loop ℕ
armed = (set_timer true 4 running).1

armed-HasFreshIds : HasFreshIds armed
unfolding start new_loop find set_timer apply
armed-HasFreshIds =
    apply-HasFreshIds (set true 4) running
      (record { positive = omega arith; none_at = refl; above = λ id h. refl })

fires_once_example :
    ((fire_timer 1 armed).0 ≡ some 4)
    × ((fire_timer 1 (apply_all (set true 5 ∷ fire 2 ∷ []) (fire_timer 1 armed).1)).0 ≡ none)
    × ((fire_timer 1 (apply_all (set true 5 ∷ fire 2 ∷ []) (cancel_timer 1 armed))).0 ≡ none)
unfolding set_timer start new_loop find insert
fires_once_example = fires_once 1 4 (set true 5 ∷ fire 2 ∷ []) armed armed-HasFreshIds refl
