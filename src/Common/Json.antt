-- ===== src/Common/Json.antt =====
-- JSON values as serde_json holds them. A number is its literal text.
use mathlib.Core.Bool.{Bool}
use xiaozhi_esp32_server_rus.Common.Text.{Text}

mutual
  pub data Json : Type 0 where
    null : Json
    boolean : Bool → Json
    number : Text → Json
    string : Text → Json
    array : JsonItems → Json
    object : JsonFields → Json

  pub data JsonItems : Type 0 where
    none_left : JsonItems
    item : Json → JsonItems → JsonItems

  pub data JsonFields : Type 0 where
    end : JsonFields
    field : Text → Json → JsonFields → JsonFields
