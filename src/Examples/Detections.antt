-- ===== src/Examples/Detections.antt =====
-- A request to the face detector whose picture cannot be loaded, and the service of one deployment.
use laqista.Base.Word.{Byte, as_u8}
use laqista.Base.{◌≡◌, refl, List, [], ◌∷◌, some, ok, err, arith}
use laqista.Base.Int.{pos_part}
use laqista.Wasm.Runner.{Codec}
use laqista.Face.Tensor.{OutputTensor, squeezenet_output}
use laqista.Face.{Detection, DetectionRequest, DetectionReply, InferRequest, InferReply, main}
use laqista.Face.Server.{Host, AbtsractServer}
use laqista.Face.Detecting.{run_detection}
use laqista.Face.Running.{entered}
use laqista.Face.Failing.{client_message, run_detection-unreadable}
use laqista.IdMap.{get}
use laqista.Disk.{get_binary, find_named}
use laqista.Face.Server.{create, from_bytes}
use laqista.Daemon.Serving.{face_server, common_services, ServesFace, common_services-deployed}
use laqista.Examples.Parts.{disk, known}
use laqista.Examples.Faces.{counting}
use laqista.Examples.Wire.{wire, put_text, text, text-put_text}

abbrev blind : Detection
blind = record counting { load_from_memory = λ png. err "not a picture" }

abbrev pub requests : Codec DetectionRequest
requests = record {
  encode = λ m. m.image_png;
  decode = λ l. ok (record { image_png = l });
  decode-encode = λ m. refl;
}

abbrev pub inputs : Codec (InferRequest Byte)
inputs = record {
  encode = λ m. m.values;
  decode = λ l. ok (record { values = l });
  decode-encode = λ m. refl;
}

abbrev pub nothing : Codec (Unit {0})
nothing = record { encode = λ m. []; decode = λ l. ok tt; decode-encode = λ m. refl }

-- Every function of the module is `main`.
abbrev host : Host Byte
host = record {
  GpuSession = Unit {0};
  gpu_session = λ onnx. ok tt;
  gpu_run =
      λ session tensors. ok ((squeezenet_output, OutputTensor.f32 (as_u8 10 ∷ as_u8 90 ∷ [])) ∷ []);
  instantiate = λ wasm. ok (λ k. as_u8 0);
  function = λ wasm name p r.
      entered
        (main ⦃d = blind⦄ wire nothing requests inputs r.bytes (pos_part p.start) (pos_part p.len))
        r;
}

abbrev pub detector : AbtsractServer (Unit {0})
detector = record { session = record { inner = tt }; onnx = []; wasm = [] }

abbrev pub request : DetectionRequest
request = record { image_png = as_u8 1 ∷ as_u8 2 ∷ as_u8 3 ∷ [] }

abbrev pub outputs : Codec (InferReply Byte)
outputs = record {
  encode = λ m. m.squeezenet0_flatten0_reshape0;
  decode = λ l. ok (record { squeezenet0_flatten0_reshape0 = l });
  decode-encode = λ m. refl;
}

-- A probability, and a label as in the results.
abbrev pub reply : List Byte → DetectionReply Byte
reply [] = record { label = ""; probability = as_u8 0 }
reply (n ∷ l) = record { label = (text l).0; probability = n }

abbrev pub replies : Codec (DetectionReply Byte)
replies = record {
  encode = λ m. m.probability ∷ put_text m.label [];
  decode = λ l. ok (reply l);
  decode-encode = λ m. rw (text-put_text m.label []) refl;
}

run_detection-unreadable_example :
    run_detection Byte ⦃h = host⦄ wire requests inputs outputs replies nothing detector request
    ≡ err (client_message "not a picture")
run_detection-unreadable_example =
    run_detection-unreadable ⦃d = blind⦄ ⦃h = host⦄ wire nothing requests inputs outputs replies
      detector request (λ k. as_u8 0) "not a picture" refl (λ p n. refl) refl
      (omega arith, omega arith)

-- The database has one deployment, of the name "face".
abbrev serving : AbtsractServer (Unit {0})
serving = record { session = record { inner = tt }; onnx = 1 ∷ 2 ∷ []; wasm = 1 ∷ 2 ∷ [] }

common_services-sample :
    common_services Byte ⦃h = host⦄ (λ d. d.name) disk known ≡ ok (some serving)
unfolding common_services face_server get_binary create from_bytes find_named get
common_services-sample = refl

common_services-deployed_example :
    ServesFace Byte ⦃h = host⦄ (λ d. d.name) disk known (some serving)
common_services-deployed_example =
    common_services-deployed Byte ⦃h = host⦄ (λ d. d.name) disk known (some serving)
      common_services-sample
