-- ===== src/Submission/Mapper.antt =====
-- common/integrations/appointments/inspection-result.mapper.ts: the payload of an inspection result.
use ivis_backend.Base.{
  ℕ, Bool, true, false, ◌||◌, Option, none, some, List, [], ◌∷◌, ◌++◌, Text, text, text_eq, is_some,
  if◌then◌else◌,
}
use ivis_backend.Exchange.Ini.{Ini}
use ivis_backend.Submission.Readings.{Numeral, num, str, verdict, normalize_plate}
use ivis_backend.Submission.Clock.{to_seconds}

pub record ExhaustResult : Type 0 where
  pub co_value : Option Numeral
  pub hc_value : Option Numeral
  pub result : Option Text

pub record SlideSlipResult : Type 0 where
  pub front_axle : Option Numeral
  pub rear_axle : Option Numeral
  pub result : Option Text

pub record BrakeResult : Type 0 where
  pub axle1_sb_left : Option Numeral
  pub axle1_sb_right : Option Numeral
  pub axle2_sb_left : Option Numeral
  pub axle2_sb_right : Option Numeral
  pub axle1_pb_left : Option Numeral
  pub axle1_pb_right : Option Numeral
  pub axle2_pb_left : Option Numeral
  pub axle2_pb_right : Option Numeral
  pub sb_efficiency : Option Numeral
  pub pb_efficiency : Option Numeral
  pub vehicle_weight_kg : Option Numeral
  pub result : Option Text

-- `compact`: a block of which nothing was read is left out.
abbrev pub compact : {A : Type 0} → Bool → A → Option A
compact true block = some block
compact false block = none

abbrev pub any_number : List (Option Numeral) → Bool
any_number [] = false
any_number (n ∷ ns) = is_some n || any_number ns

unfoldable pub exhaust : Ini → Option ExhaustResult
exhaust sections =
    let block : ExhaustResult = record {
      co_value = num sections (text "AGTTestResult") (text "CO");
      hc_value = num sections (text "AGTTestResult") (text "HC");
      result = verdict sections (text "AGTTestResult") (text "AGTTestResult");
    } in
    compact (any_number (block.co_value ∷ block.hc_value ∷ []) || is_some block.result) block

unfoldable pub slide_slip : Ini → Option SlideSlipResult
slide_slip sections =
    let block : SlideSlipResult = record {
      front_axle = num sections (text "SSPfront") (text "TrackValue");
      rear_axle = num sections (text "SSPrear") (text "TrackValue");
      result = verdict sections (text "SSPTestResult") (text "SSPgenResult");
    } in
    compact (any_number (block.front_axle ∷ block.rear_axle ∷ []) || is_some block.result) block

abbrev pub brake_readings : Ini → BrakeResult
brake_readings sections = record {
  axle1_sb_left = num sections (text "BRKSbr1") (text "MaxForceLe");
  axle1_sb_right = num sections (text "BRKSbr1") (text "MaxForceRi");
  axle2_sb_left = num sections (text "BRKSbr2") (text "MaxForceLe");
  axle2_sb_right = num sections (text "BRKSbr2") (text "MaxForceRi");
  axle1_pb_left = num sections (text "BRKHbr1") (text "MaxForceLe");
  axle1_pb_right = num sections (text "BRKHbr1") (text "MaxForceRi");
  axle2_pb_left = num sections (text "BRKHbr2") (text "MaxForceLe");
  axle2_pb_right = num sections (text "BRKHbr2") (text "MaxForceRi");
  sb_efficiency = num sections (text "TestResult") (text "DecelEmptySbr");
  pb_efficiency = num sections (text "TestResult") (text "DecelEmptyHbr");
  vehicle_weight_kg = num sections (text "TestResult") (text "WeightEmpty");
  result = verdict sections (text "BDETestResult") (text "BDEgenResult");
}

abbrev pub brake_numbers : BrakeResult → List (Option Numeral)
brake_numbers b =
    b.axle1_sb_left ∷ b.axle1_sb_right ∷ b.axle2_sb_left ∷ b.axle2_sb_right ∷ b.axle1_pb_left
    ∷ b.axle1_pb_right ∷ b.axle2_pb_left ∷ b.axle2_pb_right ∷ b.sb_efficiency ∷ b.pb_efficiency
    ∷ b.vehicle_weight_kg ∷ []

unfoldable pub brake_of : Ini → Option BrakeResult
brake_of sections =
    let block = brake_readings sections in
    compact (any_number (brake_numbers block) || is_some block.result) block

pub data ProviderVerdict : Type 0 where
  approved rejected : ProviderVerdict

pub record MapperInput : Type 0 where
  pub sections : Ini
  pub overall_result : Option Text
  pub plate_number : Text
  pub plate_type : Option Text
  pub lane_id : Option Text
  pub job_number : ℕ

pub record InspectionResultPayload : Type 0 where
  pub plate_number : Text
  pub overall_result : ProviderVerdict
  pub plate_type : Option Text
  pub lane_id : Option Text
  pub inspection_number : ℕ
  pub inspection_date : Option Text
  pub start_time : Option Text
  pub station_id : Option Text
  pub exhaust : Option ExhaustResult
  pub slide_slip : Option SlideSlipResult
  pub brake : Option BrakeResult
  pub comments : Option Text

-- `overallResult === 'Passed' ? 'APPROVED' : 'REJECTED'`
abbrev pub provider_verdict : Option Text → ProviderVerdict
provider_verdict none = ProviderVerdict.rejected
provider_verdict (some result) =
    if text_eq result (text "Passed") then ProviderVerdict.approved else ProviderVerdict.rejected

-- `if (value) payload.key = value`: an empty text is left out.
abbrev pub if_filled : Option Text → Option Text
if_filled none = none
if_filled (some []) = none
if_filled (some (c ∷ s)) = some (c ∷ s)

-- `remarks.filter(Boolean).join('; ')`, `none` where nothing is left.
abbrev pub join_remark : Option Text → Option Text → Option Text
join_remark none later = later
join_remark (some first) none = some first
join_remark (some first) (some later) = some (first ++ text "; " ++ later)

abbrev pub comments_of : Ini → Option Text
comments_of sections = join_remark (str sections (text "GenCarInfo") (text "Remark1")) (
    join_remark (str sections (text "GenCarInfo") (text "Remark2"))
      (str sections (text "GenCarInfo") (text "Remark3")))

unfoldable pub build_inspection_result_payload : MapperInput → InspectionResultPayload
unfolding exhaust slide_slip brake_of
build_inspection_result_payload input = record {
  plate_number = normalize_plate input.plate_number;
  overall_result = provider_verdict input.overall_result;
  plate_type = if_filled input.plate_type;
  lane_id = if_filled input.lane_id;
  inspection_number = input.job_number;
  inspection_date = if_filled (str input.sections (text "DateTime") (text "Date"));
  start_time = if_filled (to_seconds (str input.sections (text "DateTime") (text "Time")));
  station_id = if_filled (str input.sections (text "GenCarInfo") (text "InspectorName"));
  exhaust = exhaust input.sections;
  slide_slip = slide_slip input.sections;
  brake = brake_of input.sections;
  comments = comments_of input.sections;
}
