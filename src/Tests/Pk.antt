-- ===== src/Tests/Pk.antt =====
-- The mechanism: its answers, and the devices of a reply.
use mathlib.Core.List.{foldl}
use mathlib.Core.List.Permᴰ.{swap}
use ipp_client.Prelude.{
  Duration, ℕ, true, ◌↔◌, suc, none, String, ◌≡◌, refl, List, [], ◌∷◌, map, filter, not, arith,
}
use ipp_client.Prelude.Text.{is_empty}
use ipp_client.Pk.Device.{Device, ByIndex, default_device, decode_devices}
use ipp_client.Pk.Device.Encode.{encode_from}
use ipp_client.Pk.Device.RoundTrip.{decode_devices-encode}
use ipp_client.Pk.Device.Table.{Ascends, get, write_device, decode_devices_lem}
use ipp_client.Pk.Connect.{Zbus, is_available, connect, ping, build}
use ipp_client.Pk.Connect.Reached.{Reached, is_available-Reached_iff}
use ipp_client.Pk.Mechanism.{answered, bus_error, Bus, devices_get}
use ipp_client.Pk.Mechanism.Laws.{Settled, finished, Found, devices_get-Settled}
use ipp_client.Pk.Mechanism.Methods.{delete, invoke, invoke-Settled}

abbrev entries : List (String × String)
entries = ("device-uri:0", "socket://10.0.0.1") ∷ ("device-class:0", "network") ∷ []

-- A mechanism that refuses every change for want of a privilege and lists the entries.
abbrev bus : Bus ℕ
bus = record {
  call = λ c n. (bus_error "org.opensuse.CupsPkHelper.Mechanism.NotPrivileged", n);
  devices_get = λ timeout limit include exclude n. (answered ("", entries), n);
}

invoke-Settled_example :
    ((invoke bus (delete "office") 0).1 ≡ 0)
    × Settled
        (bus_error "org.opensuse.CupsPkHelper.Mechanism.NotPrivileged")
        (invoke bus (delete "office") 0).0
invoke-Settled_example = invoke-Settled bus (delete "office") 0

-- Fifteen and a half seconds.
abbrev a_while : Duration
a_while = record { secs = 15; nanos = 500000000 }

devices_get-Settled_example :
    ((devices_get bus a_while 0 0).1 ≡ 0)
    × Settled (answered "") (finished bus (devices_get bus a_while 0 0).0)
    × Found bus (answered ("", entries)) (devices_get bus a_while 0 0).0
devices_get-Settled_example = devices_get-Settled bus a_while 0 0 (omega arith) (omega arith)

decode_devices_lem_example :
    (m : ByIndex) × (decode_devices entries
      ≡ filter (λ d. not (is_empty d.uri)) (map (λ (i, d). d) m))
    × Ascends 0 m
    × ((k : ℕ) → get k m ≡ foldl (write_device k) default_device entries)
decode_devices_lem_example = decode_devices_lem entries

abbrev scanned : List Device
scanned =
    record default_device { uri = "socket://10.0.0.1"; class = "network" }
    ∷ record default_device { uri = "usb://Brother/HL-2030" }
    ∷ []

-- The first two entries in the other order.
abbrev exchanged : List (String × String) → List (String × String)
exchanged [] = []
exchanged (a ∷ []) = a ∷ []
exchanged (a ∷ b ∷ l) = b ∷ a ∷ l

decode_devices-encode_example : decode_devices (exchanged (encode_from 0 scanned)) ≡ scanned
decode_devices-encode_example =
    decode_devices-encode scanned (exchanged (encode_from 0 scanned)) (refl, (refl, tt))
      (omega arith) ∣ swap refl refl ∣₁

-- A machine with the mechanism on its system bus; the state counts the pings.
abbrev machine : Zbus ℕ
machine = record {
  open_bus = λ c n. (answered tt, n);
  destination_error = λ name. none;
  path_error = λ path. none;
  build_mechanism = λ c name n. (answered tt, n);
  build_peer = λ c name path n. (answered tt, n);
  ping = λ c name path n. (answered tt, suc n);
  proxy = λ c name. bus;
}

is_available-Reached_iff_example : (is_available machine 0 ≡ (true, 1)) ↔ Reached machine 0 1
is_available-Reached_iff_example = is_available-Reached_iff machine 0 1

machine-Reached : Reached machine 0 1
unfolding is_available connect ping build
machine-Reached = (is_available-Reached_iff machine 0 1).0 refl
