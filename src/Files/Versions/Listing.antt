-- ===== src/Files/Versions/Listing.antt =====
-- ListFileVersions of files_versions.go shows the versions of one object.
use notevault.Prelude.{ℕ, List, [], ◌∷◌, ◌++◌, map, Text, if◌then◌else◌, same_text}
use notevault.Prelude.Result.{Result, ok}
use notevault.Files.Store.{ObjectInfo, ObjectStore}
use notevault.Files.Versions.{FileVersionInfo, listed_version, is_version_of}

-- The objects of a listing, for the specification.
abbrev pub objects_of : List ObjectInfo → List (Result ObjectInfo)
objects_of infos = map ok infos

module _ (s : ObjectStore) (format : ℕ → Text) (bucket key : Text) (o : s.Objects) where
  -- The versions that a listing shows: those of the key, in its order, each with its own metadata.
  abbrev pub versions_of : List ObjectInfo → List FileVersionInfo
  versions_of [] = []
  versions_of (obj ∷ objs) =
      let rest = versions_of objs in
      if obj.is_delete_marker
      then rest
      else if same_text obj.key key
      then listed_version format bucket key obj (s.stat bucket key obj.version_id o) ∷ rest
      else rest

  -- The versions after one object of the loop.
  abbrev grown : ObjectInfo → List FileVersionInfo → List FileVersionInfo
  grown obj versions =
      if is_version_of key obj
      then versions
        ++ listed_version format bucket key obj (s.stat bucket key obj.version_id o) ∷ []
      else versions
