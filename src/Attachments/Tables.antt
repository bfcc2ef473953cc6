-- ===== src/Attachments/Tables.antt =====
-- src/shared/attachment-safety.ts: the extensions and MIME types that an attachment is judged by.
use material_email.Prelude.{List, [], ◌∷◌}
use material_email.Prelude.Text.{Text, text}
use material_email.Mail.{Object}

unfoldable pub windows_executable_extensions : List Text
windows_executable_extensions =
    text ".com"
    ∷ text ".cpl"
    ∷ text ".dll"
    ∷ text ".drv"
    ∷ text ".exe"
    ∷ text ".ocx"
    ∷ text ".pif"
    ∷ text ".scr"
    ∷ text ".sys"
    ∷ []

unfoldable pub windows_script_extensions : List Text
windows_script_extensions =
    text ".bat"
    ∷ text ".cmd"
    ∷ text ".hta"
    ∷ text ".inf"
    ∷ text ".js"
    ∷ text ".jse"
    ∷ text ".ps1"
    ∷ text ".psd1"
    ∷ text ".psm1"
    ∷ text ".reg"
    ∷ text ".scf"
    ∷ text ".vbe"
    ∷ text ".vbs"
    ∷ text ".wsf"
    ∷ text ".wsh"
    ∷ []

unfoldable pub windows_shortcut_extensions : List Text
windows_shortcut_extensions =
    text ".library-ms" ∷ text ".lnk" ∷ text ".search-ms" ∷ text ".url" ∷ text ".website" ∷ []

unfoldable pub windows_installer_extensions : List Text
windows_installer_extensions =
    text ".appinstaller"
    ∷ text ".appx"
    ∷ text ".appxbundle"
    ∷ text ".msi"
    ∷ text ".msix"
    ∷ text ".msixbundle"
    ∷ text ".msp"
    ∷ text ".mst"
    ∷ []

unfoldable pub macro_enabled_extensions : List Text
macro_enabled_extensions =
    text ".docm"
    ∷ text ".dotm"
    ∷ text ".ppam"
    ∷ text ".potm"
    ∷ text ".ppsm"
    ∷ text ".pptm"
    ∷ text ".sldm"
    ∷ text ".xlam"
    ∷ text ".xlsb"
    ∷ text ".xlsm"
    ∷ text ".xltm"
    ∷ []

unfoldable pub deceptive_lead_extensions : List Text
deceptive_lead_extensions =
    text ".7z"
    ∷ text ".bmp"
    ∷ text ".csv"
    ∷ text ".doc"
    ∷ text ".docm"
    ∷ text ".docx"
    ∷ text ".gif"
    ∷ text ".jpeg"
    ∷ text ".jpg"
    ∷ text ".json"
    ∷ text ".odg"
    ∷ text ".odp"
    ∷ text ".ods"
    ∷ text ".odt"
    ∷ text ".pdf"
    ∷ text ".png"
    ∷ text ".ppt"
    ∷ text ".pptm"
    ∷ text ".pptx"
    ∷ text ".rar"
    ∷ text ".rtf"
    ∷ text ".svg"
    ∷ text ".tar"
    ∷ text ".tif"
    ∷ text ".tiff"
    ∷ text ".txt"
    ∷ text ".webp"
    ∷ text ".xls"
    ∷ text ".xlsm"
    ∷ text ".xlsx"
    ∷ text ".xml"
    ∷ text ".zip"
    ∷ []

unfoldable pub common_compound_extensions : List Text
common_compound_extensions =
    text ".tar.bz2"
    ∷ text ".tar.gz"
    ∷ text ".tar.lz"
    ∷ text ".tar.lz4"
    ∷ text ".tar.xz"
    ∷ text ".tar.zst"
    ∷ []

unfoldable pub generic_mime_types : List Text
generic_mime_types =
    text ""
    ∷ text "application/force-download"
    ∷ text "application/octet-stream"
    ∷ text "application/x-download"
    ∷ text "binary/octet-stream"
    ∷ []

unfoldable pub mime_types_by_extension : Object (List Text)
mime_types_by_extension =
    (text ".7z", text "application/x-7z-compressed" ∷ [])
    ∷ (text ".bmp", text "image/bmp" ∷ [])
    ∷ (text ".csv", text "text/csv" ∷ text "application/csv" ∷ [])
    ∷ (text ".doc", text "application/msword" ∷ [])
    ∷ (text ".docm", text "application/vnd.ms-word.document.macroenabled.12" ∷ [])
    ∷ (
      text ".docx",
      text "application/vnd.openxmlformats-officedocument.wordprocessingml.document" ∷ [],
    )
    ∷ (text ".dotm", text "application/vnd.ms-word.template.macroenabled.12" ∷ [])
    ∷ (
      text ".exe",
      text "application/vnd.microsoft.portable-executable"
          ∷ text "application/x-dosexec"
          ∷ text "application/x-msdownload"
          ∷ [],
    )
    ∷ (text ".gif", text "image/gif" ∷ [])
    ∷ (text ".htm", text "text/html" ∷ [])
    ∷ (text ".html", text "text/html" ∷ [])
    ∷ (text ".jpeg", text "image/jpeg" ∷ [])
    ∷ (text ".jpg", text "image/jpeg" ∷ [])
    ∷ (text ".json", text "application/json" ∷ text "text/json" ∷ [])
    ∷ (
      text ".msi",
      text "application/x-msi"
          ∷ text "application/x-msdownload"
          ∷ text "application/octet-stream"
          ∷ [],
    )
    ∷ (text ".odp", text "application/vnd.oasis.opendocument.presentation" ∷ [])
    ∷ (text ".ods", text "application/vnd.oasis.opendocument.spreadsheet" ∷ [])
    ∷ (text ".odt", text "application/vnd.oasis.opendocument.text" ∷ [])
    ∷ (text ".pdf", text "application/pdf" ∷ [])
    ∷ (text ".png", text "image/png" ∷ [])
    ∷ (text ".ppt", text "application/vnd.ms-powerpoint" ∷ [])
    ∷ (text ".pptm", text "application/vnd.ms-powerpoint.presentation.macroenabled.12" ∷ [])
    ∷ (
      text ".pptx",
      text "application/vnd.openxmlformats-officedocument.presentationml.presentation" ∷ [],
    )
    ∷ (text ".rar", text "application/vnd.rar" ∷ text "application/x-rar-compressed" ∷ [])
    ∷ (text ".rtf", text "application/rtf" ∷ text "text/rtf" ∷ [])
    ∷ (text ".svg", text "image/svg+xml" ∷ [])
    ∷ (text ".tif", text "image/tiff" ∷ [])
    ∷ (text ".tiff", text "image/tiff" ∷ [])
    ∷ (text ".txt", text "text/plain" ∷ [])
    ∷ (text ".webp", text "image/webp" ∷ [])
    ∷ (text ".xls", text "application/vnd.ms-excel" ∷ [])
    ∷ (text ".xlsb", text "application/vnd.ms-excel.sheet.binary.macroenabled.12" ∷ [])
    ∷ (text ".xlsm", text "application/vnd.ms-excel.sheet.macroenabled.12" ∷ [])
    ∷ (text ".xlsx", text "application/vnd.openxmlformats-officedocument.spreadsheetml.sheet" ∷ [])
    ∷ (text ".xml", text "application/xml" ∷ text "text/xml" ∷ [])
    ∷ (text ".zip", text "application/zip" ∷ text "application/x-zip-compressed" ∷ [])
    ∷ []
