-- ===== src/Spend/Tests.antt =====
-- Acknowledgements on concrete objects.
use cmm_routers.Prelude.{◌≡◌, ◌↔◌, refl, true, false}
use cmm_routers.Core.Json.{Json, obj, field, end, num, str, bool}
use cmm_routers.Core.Errors.{ok, err, router_error, provider_protocol_error, template}
use cmm_routers.Spend.Paths.{assert_no_spend_path, includes, starts_with}
use cmm_routers.Spend.File.{AckFile, parsed}
use cmm_routers.Spend.CommandCode.{parse_spend_acknowledgement, parse_fields, check_keys, goat}
use cmm_routers.Spend.Cavoti as Cavoti

abbrev goat_ack : Json
goat_ack = obj (
    field "version" (num 1) (
      field "plan" (str "GOAT")
        (field "autoTopUpDisabled" (bool true) (field "allowOnDemandCredits" (bool false) end))))

is_accepted : parse_spend_acknowledgement goat_ack ≡ ok goat
unfolding parse_spend_acknowledgement parse_fields check_keys
is_accepted = refl

abbrev no_model : AckFile
no_model = parsed (
    obj (
      field "version" (num 1) (
        field "provider" (str "cavoti")
          (field "billing" (str "PAYG") (field "automaticFallback" (bool false) end)))))

require_cavoti_spend_acknowledgement_iff_example :
    (Cavoti.require_cavoti_spend_acknowledgement "/ack" no_model ≡ ok Cavoti.payg)
    ↔ Cavoti.IsAcknowledgement no_model
require_cavoti_spend_acknowledgement_iff_example =
    Cavoti.require_cavoti_spend_acknowledgement_iff "/ack" no_model

purchase_is_blocked :
    assert_no_spend_path "/v1/Purchase"
    ≡ err (
        router_error provider_protocol_error
          "Forbidden Command Code spending path blocked: /v1/Purchase")
unfolding assert_no_spend_path includes starts_with template
purchase_is_blocked = refl

models_pass : assert_no_spend_path "/v1/models" ≡ ok tt
unfolding assert_no_spend_path includes starts_with
models_pass = refl
