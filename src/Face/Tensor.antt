-- ===== src/Face/Tensor.antt =====
-- laqista-core/src/tensor.rs and apps/face/src/proto.rs: what goes into the inference and what
-- comes out of it. A hash map of tensors is an association list.
use laqista.Base.{
  String, str_eq, if◌then◌else◌, List, [], ◌∷◌, Option, none, some, Outcome, ok, err, ◌>>=◌, ok_or,
}
use laqista.Base.Text.{str_append}
use laqista.Face.{InferRequest, InferReply}

module _ (F : Type 0) where
  -- wonnx has tensors of other types besides; what they hold is not looked at.
  pub data InputTensor : Type 0 where
    f32 : List F → InputTensor
    other : InputTensor

  pub data OutputTensor : Type 0 where
    f32 : List F → OutputTensor
    other : OutputTensor

  abbrev pub Inputs : Type 0
  Inputs = List (String × InputTensor)

  abbrev pub Outputs : Type 0
  Outputs = List (String × OutputTensor)

pub data OutputsParseError : Type 0 where
  key_not_found : String → OutputsParseError
  invalid_data_type : OutputsParseError

-- `Display`
unfoldable pub show_error : OutputsParseError → String
show_error (OutputsParseError.key_not_found key) = str_append "Key not found: " key
show_error OutputsParseError.invalid_data_type = "Invalid data type of output"

-- `HashMap::remove`, as far as the value is concerned.
unfoldable pub remove : {A : Type 0} → String → List (String × A) → Option A
remove key [] = none
remove key ((k, a) ∷ m) = let rest = remove key m in if str_eq k key then some a else rest

abbrev pub squeezenet_output : String
squeezenet_output = "squeezenet0_flatten0_reshape0"

module _ {F : Type 0} where
  -- `AsInputs for InferRequest`
  unfoldable pub as_inputs : InferRequest F → Inputs F
  as_inputs request = ("data", InputTensor.f32 request.values) ∷ []

  abbrev pub reply_from : OutputTensor F → Outcome OutputsParseError (InferReply F)
  reply_from (OutputTensor.f32 coerced) = ok (record { squeezenet0_flatten0_reshape0 = coerced })
  reply_from OutputTensor.other = err OutputsParseError.invalid_data_type

  -- `TryFrom<Outputs> for InferReply`
  unfoldable pub try_from : Outputs F → Outcome OutputsParseError (InferReply F)
  unfolding remove
  try_from outputs = do
    tensor ←
        ok_or (OutputsParseError.key_not_found squeezenet_output) (remove squeezenet_output outputs)
    reply_from tensor
