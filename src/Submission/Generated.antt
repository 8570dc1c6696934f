-- ===== src/Submission/Generated.antt =====
-- The payload that is filed for a file of jobs/services/outfile-generator.service.ts.
use ivis_backend.Base.{ℕ, Bool, true, false, Option, some, none, Text, text, ◌≡◌}
use ivis_backend.Exchange.Ini.{Ini}
use ivis_backend.Exchange.OutFile.{OutFileResult}
use ivis_backend.Submission.Readings.{Numeral}
use ivis_backend.Submission.Mapper.{
  ExhaustResult, SlideSlipResult, BrakeResult, MapperInput, InspectionResultPayload, exhaust,
  slide_slip,
}

abbrev pub decimal_of : Bool → ℕ → ℕ → Option Numeral
decimal_of negative mantissa scale = some (record {
  negative = negative;
  mantissa = mantissa;
  scale = scale;
  negative_exponent = false;
  exponent = 0;
})

-- What the payload is to say of the gas and of the side slip.
abbrev pub expected_exhaust : ExhaustResult
expected_exhaust = record {
  co_value = decimal_of false 4 2;
  hc_value = decimal_of false 20 0;
  result = some (text "pass");
}

abbrev pub expected_slip : SlideSlipResult
expected_slip = record {
  front_axle = decimal_of false 62 1;
  rear_axle = decimal_of true 2 0;
  result = some (text "pass");
}

abbrev pub expected_comments : OutFileResult → Option Text
expected_comments OutFileResult.pass = none
expected_comments OutFileResult.fail = some (text "Brake efficiency below limit")

abbrev pub by_outcome : OutFileResult → ℕ → ℕ → Option Numeral
by_outcome OutFileResult.pass passing failing = decimal_of false passing 0
by_outcome OutFileResult.fail passing failing = decimal_of false failing 0

abbrev pub expected_verdict : OutFileResult → Text
expected_verdict OutFileResult.pass = text "pass"
expected_verdict OutFileResult.fail = text "fail"

-- What it is to say of the brakes. The file has no section of the hand brake for the first axle.
abbrev pub expected_brake : OutFileResult → BrakeResult
expected_brake result = record {
  axle1_sb_left = by_outcome result 2725 1420;
  axle1_sb_right = by_outcome result 2654 1380;
  axle2_sb_left = by_outcome result 2133 1105;
  axle2_sb_right = by_outcome result 2211 1160;
  axle1_pb_left = none;
  axle1_pb_right = none;
  axle2_pb_left = decimal_of false 1841 0;
  axle2_pb_right = decimal_of false 1970 0;
  sb_efficiency = by_outcome result 73 38;
  pb_efficiency = decimal_of false 28 0;
  vehicle_weight_kg = decimal_of false 1347 0;
  result = some (expected_verdict result);
}

-- What the payload says of the measurements.
abbrev pub Says : OutFileResult → InspectionResultPayload → Type 0
Says result payload =
    (payload.exhaust ≡ some expected_exhaust)
    × (payload.slide_slip ≡ some expected_slip)
    × (payload.brake ≡ some (expected_brake result))
    × (payload.comments ≡ expected_comments result)
    × (payload.station_id ≡ some (text "11627"))

abbrev pub read_from : MapperInput → Ini → MapperInput
read_from input sections = record input { sections = sections }
