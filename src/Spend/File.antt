-- ===== src/Spend/File.antt =====
-- What reading and parsing the machine's acknowledgement file gives. `JSON.parse` belongs to the
-- language; its value is an input.
use cmm_routers.Core.Json.{Json}

pub data AckFile : Type 0 where
  absent : AckFile
  not_json : AckFile
  parsed : Json → AckFile
