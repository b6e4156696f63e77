-- ===== src/Process/Command.antt =====
-- `buildClasspath` and the command that `start` runs, on both platforms.
use ghidra_svr_bridge.Prelude.{
  ℕ, Bool, not, List, [], ◌∷◌, ◌++◌, Str, codes, if◌then◌else◌, is_empty, fold,
}

-- `kFramework`
abbrev pub framework : List Str
framework =
    codes "DB"
    ∷ codes "Docking"
    ∷ codes "Emulation"
    ∷ codes "FileSystem"
    ∷ codes "Generic"
    ∷ codes "Graph"
    ∷ codes "Gui"
    ∷ codes "Help"
    ∷ codes "Project"
    ∷ codes "Pty"
    ∷ codes "SoftwareModeling"
    ∷ codes "Utility"
    ∷ []

abbrev pub framework_entry : Str → Str → Str
framework_entry home m = home ++ (codes "/Ghidra/Framework/" ++ (m ++ codes "/lib/*"))

-- The body of the loop; `sep` is ':' on POSIX and ';' on Windows.
unfoldable pub add_module : ℕ → Str → Str → Str → Str
add_module sep home cp m = (cp ++ sep ∷ []) ++ framework_entry home m

unfoldable pub build_classpath : ℕ → Str → Str → Str
build_classpath sep jar home =
    let cp = fold (add_module sep home) jar framework in
    let server = (cp ++ sep ∷ []) ++ (home ++ codes "/Ghidra/Features/GhidraServer/lib/*") in
    (server ++ sep ∷ []) ++ (home ++ codes "/Ghidra/Features/Base/lib/*")

-- `exe`
unfoldable pub java_or_default : Str → Str
java_or_default java_exe = if is_empty java_exe then codes "java" else java_exe

-- `argStrs`, POSIX.
unfoldable pub arguments : Str → Str → Str → Bool → List Str
arguments java_exe jar home trust_all =
    (java_or_default java_exe
      ∷ codes "-cp"
      ∷ build_classpath b':' jar home
      ∷ codes "com.ghidra_svr.bridge.BridgeMain"
      ∷ codes "--port"
      ∷ codes "0"
      ∷ [])
    ++ ((if trust_all then codes "--trust-all" ∷ [] else [])
        ++ (if not (is_empty home) then codes "--ghidra-home" ∷ home ∷ [] else []))

abbrev quoted : Str → Str
quoted s = b'"' ∷ (s ++ b'"' ∷ [])

-- `cmd`, Windows.
unfoldable pub command_line : Str → Str → Str → Bool → Str
command_line java_exe jar home trust_all =
    quoted (java_or_default java_exe)
    ++ (codes " -cp "
        ++ (quoted (build_classpath b';' jar home)
            ++ (codes " com.ghidra_svr.bridge.BridgeMain --port 0"
                ++ ((if trust_all then codes " --trust-all" else [])
                    ++ (if not (is_empty home)
                        then codes " --ghidra-home " ++ quoted home
                        else [])))))
