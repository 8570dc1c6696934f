-- ===== src/Exchange/OutFile.antt =====
-- jobs/services/outfile-generator.service.ts: the file that a development machine writes in place of the
-- rig, with the day and the time as the formatters of `Intl` print them. That the generator is refused in
-- production and where the file is put is not modelled.
use ivis_backend.Base.{Bool, [], ◌∷◌, ◌++◌, map, any, Text, text, text_eq, if◌then◌else◌}
use Prim.Native.String.{String}
use ivis_backend.Exchange.Ini.{Ini, Section}
use ivis_backend.Exchange.Lines.{join_lines, entry_line, header_line}
use ivis_backend.Exchange.Document.{document_lines}

pub data OutFileResult : Type 0 where
  pass fail : OutFileResult

-- `failing ? a : b`
abbrev pub by_result : OutFileResult → String → String → Text
by_result OutFileResult.pass a b = text b
by_result OutFileResult.fail a b = text a

abbrev pub brake : OutFileResult → Text
brake result = by_result result "fail" "pass"

abbrev pub decel : OutFileResult → Text
decel result = by_result result "38" "73"

abbrev entry : String → Text → Text × Text
entry key value = (text key, value)

-- The array `sections`, in four parts.
abbrev pub car_sections : OutFileResult → Text → Text → Text → Ini
car_sections result plate date time =
    (
      text "GenCarInfo",
      entry "LicenceNo" plate
          ∷ entry "Address" (text "Mr.")
          ∷ entry "Name" (text "Generated")
          ∷ entry "ChassisNo" (text "")
          ∷ entry "Color" (text "")
          ∷ entry "ManufacYear" (text "")
          ∷ entry "Maker" (text "")
          ∷ entry "InspectorName" (text "11627")
          ∷ entry "VehicleCategory" (text "Car")
          ∷ entry "VehicleType" (text "SALOON")
          ∷ entry "ExhaustType" (text ".Petrol")
          ∷ entry "NumberOfAxles" (text "2")
          ∷ entry "Remark1" (by_result result "Brake efficiency below limit" "")
          ∷ entry "Remark2" (text "")
          ∷ entry "Remark3" (text "")
          ∷ entry "SSP_Status" (text "ToCheck")
          ∷ entry "FWT_Status" (text "ToCheck")
          ∷ entry "BDE_Status" (text "ToCheck")
          ∷ entry "AGT_Status" (text "ToCheck")
          ∷ entry "VEH_Status" (text "ToCheck")
          ∷ [],
    )
    ∷ (text "DateTime", entry "Date" date ∷ entry "Time" time ∷ entry "ReTestCount" (text "0") ∷ [])
    ∷ []

abbrev pub slip_and_weight_sections : Ini
slip_and_weight_sections =
    (text "SSPfront", entry "TrackValue" (text "6.2") ∷ [])
    ∷ (text "SSPrear", entry "TrackValue" (text "-2") ∷ [])
    ∷ (text "SSPTestResult", entry "SSPgenResult" (text "pass") ∷ [])
    ∷ (
      text "FWTfront",
      entry "WeightLe" (text "389")
          ∷ entry "WeightRi" (text "420")
          ∷ entry "ErrResultLe" (text "pass")
          ∷ entry "ErrResultRi" (text "pass")
          ∷ [],
    )
    ∷ (
      text "FWTrear",
      entry "WeightLe" (text "261")
          ∷ entry "WeightRi" (text "277")
          ∷ entry "ErrResultLe" (text "pass")
          ∷ entry "ErrResultRi" (text "pass")
          ∷ [],
    )
    ∷ (text "FWTTestResult", entry "FWTgenResult" (text "pass") ∷ [])
    ∷ []

abbrev pub brake_sections : OutFileResult → Ini
brake_sections result =
    (
      text "BRKSbr1",
      entry "MaxForceLe" (by_result result "1420" "2725")
          ∷ entry "MaxForceRi" (by_result result "1380" "2654")
          ∷ entry "AxleWeight" (text "809")
          ∷ entry "AxleDecel" (decel result)
          ∷ entry "AxleErrDecel" (brake result)
          ∷ [],
    )
    ∷ (
      text "BRKSbr2",
      entry "MaxForceLe" (by_result result "1105" "2133")
          ∷ entry "MaxForceRi" (by_result result "1160" "2211")
          ∷ entry "AxleWeight" (text "538")
          ∷ entry "AxleDecel" (by_result result "41" "82")
          ∷ entry "AxleErrDecel" (brake result)
          ∷ [],
    )
    ∷ (
      text "BRKHbr2",
      entry "MaxForceLe" (text "1841")
          ∷ entry "MaxForceRi" (text "1970")
          ∷ entry "AxleWeight" (text "538")
          ∷ entry "AxleDecel" (text "72")
          ∷ entry "AxleErrDecel" (text "pass")
          ∷ [],
    )
    ∷ (
      text "TestResult",
      entry "DecelEmptySbr" (decel result)
          ∷ entry "DecelEmptyHbr" (text "28")
          ∷ entry "WeightEmpty" (text "1347")
          ∷ [],
    )
    ∷ (
      text "BDETestResult",
      entry "BDEgenResult" (brake result)
          ∷ entry "BDE_BRKSbrErrDecel_empt" (brake result)
          ∷ entry "BDE_BRKHbrErrDecel_empt" (text "pass")
          ∷ [],
    )
    ∷ []

abbrev pub other_sections : Ini
other_sections =
    (
      text "NOCTestResult",
      entry "ExhMaxSoundLevelMax" (text "104.9") ∷ entry "ExhTestResult" (text "pass") ∷ [],
    )
    ∷ (
      text "AGTTestResult",
      entry "CO" (text "0.04")
          ∷ entry "HC" (text "20")
          ∷ entry "CO2" (text "14.0")
          ∷ entry "NO" (text "----")
          ∷ entry "RPM" (text "800#")
          ∷ entry "AGTTestResult" (text "pass")
          ∷ [],
    )
    ∷ (text "SSPlimitInfo", entry "SSP_Limit" (text "10") ∷ [])
    ∷ (
      text "BDElimitInfo",
      entry "BDE_SBrDecel_1" (text "50") ∷ entry "BDE_PBrDecel_1" (text "16") ∷ [],
    )
    ∷ (text "AGTlimitInfo", entry "AGT_HcMax" (text "600") ∷ entry "AGT_CoMax" (text "4.5") ∷ [])
    ∷ []

unfoldable pub sections : OutFileResult → Text → Text → Text → Ini
sections result plate date time =
    car_sections result plate date time
    ++ (slip_and_weight_sections ++ (brake_sections result ++ other_sections))

-- The set `measured`.
abbrev pub is_measured : Text → Bool
is_measured name = any (text_eq name) (
    text "DateTime"
    ∷ text "SSPfront"
    ∷ text "SSPrear"
    ∷ text "SSPTestResult"
    ∷ text "FWTfront"
    ∷ text "FWTrear"
    ∷ text "FWTTestResult"
    ∷ text "BRKSbr1"
    ∷ text "BRKSbr2"
    ∷ text "BRKHbr2"
    ∷ text "TestResult"
    ∷ text "BDETestResult"
    ∷ text "NOCTestResult"
    ∷ text "AGTTestResult"
    ∷ [])

-- `${name}_${key}`
abbrev pub flat_entry : Text → Text × Text → Text × Text
flat_entry name (key, value) = (name ++ text "_" ++ key, value)

-- The lines below `[FlatResults]`.
abbrev pub flat_results : Ini → Section
flat_results [] = []
flat_results ((name, entries) ∷ rest) =
    if is_measured name
    then map (flat_entry name) entries ++ flat_results rest
    else flat_results rest

unfoldable pub build_content : Text → OutFileResult → Text → Text → Text
unfolding sections
build_content plate result date time = join_lines (
    document_lines (sections result plate date time)
    ++ (header_line (text "FlatResults")
          ∷ map entry_line (flat_results (sections result plate date time))
        ++ [] ∷ []))
