-- ===== src/Files/Saved.antt =====
-- What is read of an application after a deployment of it has been saved.
use Prim.Native.String.{String}
use laqista.Base.{ℕ, List, map}
use laqista.Types.{Crates, Deployment}
use laqista.Disk.{LocalTime, SavedDeployment}
use laqista.Disk.Naming.{Hex}
use laqista.Wasm.Runner.{Codec}
use laqista.Files.Archive.{Dir}

abbrev pub names : List (String × Dir) → List String
names = map (λ (d : String × Dir). d.0)

module _ ⦃k : Crates⦄ (codec : Codec Deployment) where
  module _ ⦃h : Hex⦄ where
    abbrev pub saved_at : LocalTime → List ℕ → SavedDeployment
    saved_at now hash = record { timestamp = now; hash = hash }
