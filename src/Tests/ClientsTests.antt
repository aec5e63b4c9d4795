-- ===== src/Tests/ClientsTests.antt =====
-- src/service.c with clients that write and read in a given way.
use softgre.Shared.{ℕ, ◌≡◌, refl, true, false, [], ◌∷◌, ◌++◌, some, get_or}
use softgre.Compat.{Text, codes}
use softgre.Compat.Split.{has_byte}
use softgre.Clients.{
  Io, received, recv_again, sent_bytes, send_again, closed, Service, initial_clients,
}
use softgre.Clients.Runs.{round, step, started, stepped, InOrder, Reachable-InOrder}

abbrev echo : Text → Text
echo command = command ++ codes "\n"

abbrev quiet : Io
quiet = record {
  events = record { pollin = false; pollout = false; pollhup = false; error = false };
  recv = recv_again;
  send = send_again;
}

abbrev writes : Text → Io
writes text = record {
  events = record { pollin = true; pollout = false; pollhup = false; error = false };
  recv = received text;
  send = send_again;
}

abbrev reads : ℕ → Io
reads n = record {
  events = record { pollin = false; pollout = true; pollhup = false; error = false };
  recv = recv_again;
  send = sent_bytes n;
}

abbrev begun : Service
begun = record { listener = true; limit = 2; clients = initial_clients }

abbrev connected : Service
connected = step echo (round 100 (λ slot. quiet) true (7 ∷ [])) begun

abbrev asked : Service
asked = step echo (round 200 (λ slot. writes (codes "VERS\nx")) false []) connected

abbrev half_sent : Service
half_sent = step echo (round 300 (λ slot. reads 2) false []) asked

Reachable-InOrder_example : InOrder 2 half_sent
Reachable-InOrder_example = Reachable-InOrder echo 2 half_sent (
    stepped (round 300 (λ slot. reads 2) false []) asked (
      stepped (round 200 (λ slot. writes (codes "VERS\nx")) false []) connected
        (stepped (round 100 (λ slot. quiet) true (7 ∷ [])) begun started)))

first_client_asked : get_or half_sent.clients 0 closed ≡ record {
  fd = some 7;
  input = codes "VERS\nx";
  sent = 2;
  response = some (codes "VERS\n");
  deadline = 5000100;
}
unfolding step initial_clients has_byte
first_client_asked = refl

first_client_done :
    get_or (step echo (round 300 (λ slot. reads 9) false []) asked).clients 0 closed ≡ closed
unfolding step initial_clients has_byte closed
first_client_done = refl

too_late :
    get_or
      (step echo (round 5000100 (λ slot. writes (codes "VERS\n")) false []) connected).clients
      0
      closed
    ≡ closed
unfolding step initial_clients closed
too_late = refl
