-- ===== src/Pk/Connect.antt =====
-- cups-pk-client/src/client.rs: connecting to the mechanism, and whether it can be reached.
pub mod Laws
pub mod Reached
use ipp_client.Prelude.{String, Bool, true, false, Option, none, some}
use ipp_client.Pk.Errors.{CupsPkError, transport, Result, ok, err}
use ipp_client.Pk.Mechanism.{Reply, answered, bus_error, Bus}

pub data Connection : Type 0 where
  system session : Connection

-- The D-Bus library. `S` is the state of the machine; each action may fail with an error's text.
pub record Zbus (S : Type 0) : Type 0 where
  -- `Connection::system` and `Connection::session`
  pub open_bus : Connection → S → Reply (Unit {0}) × S
  -- the error of a text that is no name of a bus, or no path of an object
  pub destination_error : String → Option String
  pub path_error : String → Option String
  -- building the proxy of the mechanism, and of the object as a peer, at a destination
  pub build_mechanism : Connection → String → S → Reply (Unit {0}) × S
  pub build_peer : Connection → String → String → S → Reply (Unit {0}) × S
  pub ping : Connection → String → String → S → Reply (Unit {0}) × S
  -- the methods of the mechanism behind a proxy
  pub proxy : Connection → String → Bus S

unfoldable pub mechanism_bus_name : String
mechanism_bus_name = "org.opensuse.CupsPkHelper.Mechanism"

-- `default_path` of the interface
unfoldable pub default_path : String
default_path = "/"

-- `CupsPk { proxy }`: where its proxy points.
pub record CupsPk : Type 0 where
  pub connection : Connection
  pub destination : String

-- `.map_err(|e| CupsPkError::Transport(e.to_string()))`
abbrev pub transport_failed : {A : Type 0} → Reply A → Result A
transport_failed (answered a) = ok a
transport_failed (bus_error text) = err (transport text)

abbrev pub refused : Option String → Result (Unit {0})
refused none = ok tt
refused (some text) = err (transport text)

abbrev pub Action : Type 0 → Type 0 → Type 0
Action S A = S → Result A × S

module _ {S : Type 0} where
  abbrev pub pure : {A : Type 0} → A → Action S A
  pure a s = (ok a, s)

  abbrev pub awaits : {A : Type 0} → (S → Reply A × S) → Action S A
  awaits action s = let (reply, after) = action s in (transport_failed reply, after)

  abbrev pub lift : {A : Type 0} → Result A → Action S A
  lift r s = (r, s)

  abbrev pub onward : {A B : Type 0} → (A → Action S B) → Result A × S → Result B × S
  onward next (ok a, s) = next a s
  onward next (err e, s) = (err e, s)

  infixl 5 ◌>>=◌ ◌>>◌
  abbrev pub ◌>>=◌ : {A B : Type 0} → Action S A → (A → Action S B) → Action S B
  ◌>>=◌ action next s = onward next (action s)

  abbrev pub ◌>>◌ : {A B : Type 0} → Action S A → Action S B → Action S B
  first >> second = first >>= λ value. second

module _ {S : Type 0} (z : Zbus S) where
  unfoldable pub build : Connection → String → Action S CupsPk
  build connection bus_name = do
    lift (refused (z.destination_error bus_name))
    awaits (z.build_mechanism connection bus_name)
    pure (record { connection = connection; destination = bus_name })

  unfoldable pub connect : Action S CupsPk
  unfolding build mechanism_bus_name
  connect = do awaits (z.open_bus system); build system mechanism_bus_name

  unfoldable pub connect_to : String → Action S CupsPk
  unfolding build
  connect_to bus_name = do awaits (z.open_bus session); build session bus_name

  unfoldable pub ping : CupsPk → Action S (Unit {0})
  unfolding default_path
  ping client = do
    lift (refused (z.destination_error client.destination))
    lift (refused (z.path_error default_path))
    awaits (z.build_peer client.connection client.destination default_path)
    awaits (z.ping client.connection client.destination default_path)

  abbrev pub is_ok : {A : Type 0} → Result A → Bool
  is_ok (ok a) = true
  is_ok (err e) = false

  abbrev pub reached : Result CupsPk × S → Bool × S
  reached (ok client, s) = let (r, after) = ping client s in (is_ok r, after)
  reached (err e, s) = (false, s)

  unfoldable pub is_available : S → Bool × S
  unfolding connect ping
  is_available s = reached (connect s)
