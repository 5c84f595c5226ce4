-- ===== src/Files.antt =====
-- The file system as the program reads it (std::filesystem, std::ifstream): an environment that the
-- model is given. A path is the list of its components.
use hardware_monitor.Prelude.{Bool, Option, List, [], ◌∷◌, ◌++◌, Bytes}

abbrev pub FilePath : Type 0
FilePath = List Bytes

infixl 60 ◌//◌
abbrev pub ◌//◌ : FilePath → Bytes → FilePath
p // name = p ++ name ∷ []

pub record FileSystem : Type 0 where
  pub is_directory : FilePath → Bool
  pub is_regular_file : FilePath → Bool
  -- The names that a directory iterator yields, in its order; none where it cannot be opened.
  pub directory : FilePath → List Bytes
  -- The bytes of a file that opens and reads; `none` where it does not.
  pub contents : FilePath → Option Bytes
