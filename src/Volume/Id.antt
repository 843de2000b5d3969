-- ===== src/Volume/Id.antt =====
-- sanitizeVolumeID (pkg/beegfs/beegfs_util.go): directory names from volume identifiers.
pub mod Names
use beegfs_csi_driver.Prelude.{String, len, ltb, if◌then◌else◌}
use beegfs_csi_driver.Text.Strings.{replace_first, replace_char}

-- Underscores are doubled, and slashes become underscores.
unfoldable pub flatten_id : String → String
unfolding replace_char
flatten_id id = replace_char b'/' "_" (replace_char b'_' "__" id)

-- `sha1_hex` is the SHA-1 digest in hexadecimal.
unfoldable pub sanitize_volume_id : (String → String) → String → String
unfolding flatten_id replace_first
sanitize_volume_id sha1_hex volume_id =
    let sanitized = flatten_id (replace_first volume_id "beegfs://" "") in
    if ltb 255 (len sanitized) then sha1_hex volume_id else sanitized
