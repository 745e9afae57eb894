-- ===== src/Server/Serve/Examples.antt =====
-- A server that hears a swap from a client, which then leaves.
use tarwyn.Base.{ℕ, ◌+◌, ◌≡◌, ◌≤◌, refl, none, List, [], ◌∷◌, nat_eq, length}
use tarwyn.Registry.Invariant.{IsValid}
use tarwyn.Registry.State.{Env, max_topics}
use tarwyn.Server.Cache.{count_values}
use tarwyn.Server.Requests.{Node}
use tarwyn.Server.Serve.{serve, disconnect}
use tarwyn.Server.Serve.Reach.{Runs, idles, steps, serves, leaves, Runs-IsValid}
use tarwyn.Session.{binary}
use tarwyn.Server.Sample.{plain_floats, codec, collect, empty_node, noon}
use tarwyn.Transport.{Message}

abbrev room : Env
room = record { floats = plain_floats; clock = λ n. n }

abbrev swapped : Node ℕ (List Message)
swapped =
    (serve collect codec room (λ _. none) (λ i. 100 + i) noon 5 (binary (1 ∷ [])) empty_node).0

abbrev left : Node ℕ (List Message)
left = disconnect collect codec room 5 swapped

abbrev runs : Runs collect codec room empty_node left
runs = steps (steps idles (serves (λ _. none) (λ i. 100 + i) noon 5 (binary (1 ∷ [])))) (leaves 5)

Runs-IsValid_example :
    IsValid left.registry
    × (length left.cached ≤ max_topics)
    × (count_values left.cached ≡ length left.cached)
Runs-IsValid_example = Runs-IsValid collect codec room empty_node left refl refl runs
