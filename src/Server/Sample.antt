-- ===== src/Server/Sample.antt =====
-- A server to run: a codec that reads requests of one byte, and a node on which nothing happened.
use tarwyn.Base.{
  ℕ, Bool, true, false, none, some, List, [], ◌∷◌, ◌++◌, Option, utf8, ◌==◌, nat_eq, if◌then◌else◌,
}
use tarwyn.Base.Bytes.{Bytes}
use tarwyn.Kind.{Prost, string}
use tarwyn.Logger.{new_logger}
use tarwyn.Registry.State
use tarwyn.Server.Cache.{CompareAndSet}
use tarwyn.Server.Requests.{Request, swap, Reply, swap_reply, Codec, Clock, Node}
use tarwyn.Transport.{Message, new_client}
use tarwyn.Transport.Dispatch.{new_map}
use tarwyn.Value.{Floats}

abbrev pub plain_floats : Floats
plain_floats = record { f32_to_f64 = λ x. x; f64_to_f32 = λ x. x; int_to_f64 = λ _. 0 }

abbrev pub silent_prost : Prost
silent_prost = record {
  write_bytes_list = λ _. [];
  read_bytes_list = λ _. none;
  write_coordinates = λ _. [];
  read_coordinates = λ _. none;
  write_curve = λ _. [];
  write_curves = λ _. [];
  read_curves = λ _. none;
  write_curves_list = λ _. [];
}

abbrev pub claim : CompareAndSet
claim = record {
  channel = utf8 "/leader";
  expect_absent = true;
  expected = none;
  value = some (some (string (utf8 "one")));
}

-- One byte: the claim, or a request without a payload; anything else cannot be read.
abbrev pub read_request : Bytes → Option (ℕ × Option Request)
read_request (b ∷ []) =
    if b == 1 then some (7, some (swap claim)) else if b == 2 then some (8, none) else none
read_request _ = none

abbrev pub write_reply : ℕ → Reply → Bytes
write_reply id (swap_reply true current) = id ∷ 1 ∷ []
write_reply id _ = id ∷ []

abbrev pub codec : Codec
codec = record {
  decode = read_request;
  encode = write_reply;
  print = λ _. [];
  same = λ _ _. false;
  floats = plain_floats;
  prost = silent_prost;
  version = utf8 "1";
}

abbrev pub collect : List Message → Message → List Message × Bool
collect sent m = (sent ++ (m ∷ []), true)

abbrev pub empty_node : Node ℕ (List Message)
empty_node = record {
  cached = [];
  registry = State.new;
  relay = record { registry = []; published = [] };
  logger = new_logger;
  connections = new_map;
  clients = λ _. new_client [] 4;
}

abbrev pub noon : Clock
noon = record { nanos = 12000; micros = 12; uptime = 1 }
