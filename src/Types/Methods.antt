-- ===== src/Types/Methods.antt =====
-- The virtual functions that the integer classes override: src/include/type/type.h.
use lab.Common.{List, ℕ}
use lab.Types.Value.{IntType, Value, Answer, CmpBool}

pub record Methods : Type 0 where
  pub add : Value → Value → Answer Value
  pub subtract : Value → Value → Answer Value
  pub multiply : Value → Value → Answer Value
  pub divide : Value → Value → Answer Value
  pub modulo : Value → Value → Answer Value
  pub operate_null : IntType → Value
  pub compare_equals : Value → Value → CmpBool
  pub compare_not_equals : Value → Value → CmpBool
  pub compare_less_than : Value → Value → CmpBool
  pub compare_less_than_equals : Value → Value → CmpBool
  pub compare_greater_than : Value → Value → CmpBool
  pub compare_greater_than_equals : Value → Value → CmpBool
  pub serialize_to : Value → List ℕ
  pub deserialize_from : List ℕ → Value
  pub copy : Value → Value
  pub cast_as : Value → IntType → Answer Value
