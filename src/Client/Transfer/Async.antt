-- ===== src/Client/Transfer/Async.antt =====
-- ipp-async/src/client.rs: sending a request, step by step.
use ipp_client.Prelude.{String, refl}
use ipp_client.Ipp.{Request, Response}
use ipp_client.Errors.{Result}
use ipp_client.Host.{Host}
use ipp_client.Session.{lift}
use ipp_client.Future
use ipp_client.Future.{Future, transmit, ready, pure, ◌>>=◌, ◌>>◌, Runs, Runs->>=}
use ipp_client.Client.{Client}
use ipp_client.Client.Transfer
use ipp_client.Client.Transfer.{received, check_status}

module _ {S : Type 0} (h : Host S) (c : Client) where
  -- `self.inner.send(request).await.map_err(Error::transport)`
  unfoldable pub exchange : Request → Future Response
  exchange req = transmit c.inner req λ answer. ready (received h answer)

  unfoldable pub send : Request → String → Future Response
  unfolding exchange
  send req label = do resp ← exchange req; ready (check_status h resp label); pure resp

  unfoldable pub run : Result Request → String → Future (Unit {0})
  unfolding send
  run request label = do r ← ready request; send r label; pure tt

  -- The action that answers at once with a result.
  pub lift-Runs : {A : Type 0} (r : Result A) → Runs h (ready r) (lift r)
  unfolding Future.run
  lift-Runs r s = refl

  exchange-Runs : (req : Request) → Runs h (exchange req) (Transfer.transmit h c req)
  unfolding Future.run exchange Transfer.transmit
  exchange-Runs req s = refl

  pub send-Runs :
      (req : Request) (label : String) → Runs h (send req label) (Transfer.send h c req label)
  unfolding send Transfer.send
  send-Runs req label =
      Runs->>= h _ _ _ _ (exchange-Runs req)
        λ resp. Runs->>= h _ _ _ _ (lift-Runs (check_status h resp label)) λ _. lift-Runs _

  pub run-Runs :
      (request : Result Request) (label : String)
      → Runs h (run request label) (Transfer.run h c request label)
  unfolding run Transfer.run
  run-Runs request label =
      Runs->>= h _ _ _ _ (lift-Runs request)
        λ r. Runs->>= h _ _ _ _ (send-Runs r label) λ _. lift-Runs _
