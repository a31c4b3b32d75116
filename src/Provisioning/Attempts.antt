-- ===== src/Provisioning/Attempts.antt =====
-- Every method of `ProvisioningService` (app/services/provisioning_service.py) on the table of attempts.
use kz_home_core.Common.{ℕ, String, List, [], ◌∷◌, Result-cases, inl, inr, Moves}
use kz_home_core.Onboarding.Service.{claim_digest}
use kz_home_core.Provisioning.Sessions.{Registry, ProvisioningStart, Secrets}
use kz_home_core.Provisioning.Service.{get, cancel_session, create}
use kz_home_core.Provisioning.Evolution.{Evolves, Evolution, Evolves-refl, Evolves-trans}
use kz_home_core.Provisioning.Blocks.{
  cancel-Evolution, committed-Evolution, create_block-Evolution, get-Evolution,
}

module _ (sha256 : String → String) where
  module _ (body_digest : String → String → String → String → String) where
    create-Evolution :
        (house actor : String) (request : ProvisioningStart) (key : String) (secrets : Secrets)
        (now : ℕ)
        → Moves Evolution (create sha256 body_digest house actor request key secrets now)
    unfolding create
    create-Evolution house actor request key secrets now =
        elim (Result-cases (claim_digest sha256 request.claim_code)) [
          | inr (e, malformed) ↦ record {
            at = λ s. rw (malformed, create) (Evolves-refl s.sessions);
          }
          | inl (supplied, digest) ↦ record {
            at = λ s.
                rw (digest, create)
                  (committed-Evolution s _ (
                    (create_block-Evolution sha256 house actor request supplied (sha256 key) _
                        secrets now).at
                      s));
          }
        ]

    -- A request to the service, and what is left when it has returned or raised.
    pub data Request : Type 0 where
      to_create : String → String → ProvisioningStart → String → Secrets → ℕ → Request
      to_get : String → String → String → ℕ → Request
      to_cancel : String → String → String → ℕ → String → ℕ → Request

    abbrev pub serve : Request → Registry → Registry
    serve (to_create house actor request key secrets now) s =
        (create sha256 body_digest house actor request key secrets now s).1
    serve (to_get house actor session_id now) s = (get sha256 house actor session_id now s).1
    serve (to_cancel house actor session_id revision key now) s =
        (cancel_session sha256 house actor session_id revision key now s).1

    abbrev pub run : List Request → Registry → Registry
    run [] s = s
    run (r ∷ rs) s = run rs (serve r s)

    serve-Evolution : (r : Request) (s : Registry) → Evolution s (serve r s)
    serve-Evolution (to_create house actor request key secrets now) s =
        (create-Evolution house actor request key secrets now).at s
    serve-Evolution (to_get house actor session_id now) s =
        (get-Evolution sha256 house actor session_id now).at s
    serve-Evolution (to_cancel house actor session_id revision key now) s =
        (cancel-Evolution sha256 house actor session_id revision key now).at s

    -- However creations, reads and cancellations follow one another, whether they return or raise, the
    -- table of attempts follows the state machine: no row is lost or moved, each row is as it was, or was
    -- "discovered" and is now expired or cancelled, its revision one higher and everything else but the
    -- record of who cancelled unchanged, and every new row began as "discovered" at revision 0.
    pub run-Evolves : (rs : List Request) (s : Registry) → Evolves s.sessions (run rs s).sessions
    run-Evolves [] s = Evolves-refl s.sessions
    run-Evolves (r ∷ rs) s = Evolves-trans (serve-Evolution r s) (run-Evolves rs (serve r s))
