-- ===== src/Deploy/Client/Waiting.antt =====
-- What becomes of the client of src/riaps/run/deplc.py when the deployment service does not answer.
use riaps_pycom.Prelude.{◌≡◌, Bool, false, List, [], ◌∷◌, All}
use riaps_pycom.Deploy.Client.{
  Asked, actor_reg, device_get, device_rel, report_event, ReqSocket, DeplClient, Operation,
  registers, requests, releases, reports, operate,
}

module _ (z : ReqSocket) where
  -- The request that an operation sends
  abbrev pub asked : Operation → DeplClient z → Asked
  asked registers c = actor_reg c.app_name c.actor_name c.is_device
  asked (requests app model type inst args) c = device_get app model type inst args
  asked (releases app model type inst) c = device_rel app model type inst
  asked (reports bundle) c = report_event c.app_name c.actor_name bundle

  -- What the operations return, one after the other
  unfoldable pub results : List Operation → DeplClient z → List Bool
  results [] c = []
  results (o ∷ l) c = let r = operate z o c in r.0 ∷ results l r.1

  abbrev pub AllFail : List Bool → Type 0
  AllFail l = All (λ (b : Bool). b ≡ false) l
