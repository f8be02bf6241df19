-- ===== src/Agent/Service.antt =====
-- agent/smartclassroom_agent/service/: the command that registers the agent as a Windows service, the
-- systemd unit, and `install-service` of cli.py, which prints one of them.
--
-- `executable` is `sys.executable`. A path is its text, `str(path)`; `posix` is `path.as_posix()`.
use smart_classroom.Prelude.{
  ◌≡◌, refl, Bool, true, false, ◌||◌, List, [], ◌∷◌, ◌++◌, map, Option, none, some, ◌==◌,
  if◌then◌else◌, Text, codes,
}
pub mod Quoting

abbrev pub service_name : Text
service_name = codes "SmartClassroomAgent"

abbrev pub unit_name : Text
unit_name = codes "smartclassroom-agent.service"

-- `python_exe or sys.executable`
abbrev pub python_of : Option Text → Text → Text
python_of none executable = executable
python_of (some []) executable = executable
python_of (some (c ∷ s)) executable = c ∷ s

unfoldable pub build_nssm_install_args : Text → Text → Option Text → Text → List Text
build_nssm_install_args executable config_path python_exe nssm_path =
    nssm_path
    ∷ codes "install"
    ∷ service_name
    ∷ python_of python_exe executable
    ∷ codes "-m"
    ∷ codes "smartclassroom_agent"
    ∷ codes "run"
    ∷ codes "--config"
    ∷ config_path
    ∷ []

-- `" " in a`
unfoldable pub has_space : Text → Bool
has_space [] = false
has_space (c ∷ s) = (c == b' ') || has_space s

unfoldable pub quote : Text → Text
quote a = if has_space a then b'"' ∷ (a ++ (b'"' ∷ [])) else a

-- `" ".join(...)`
unfoldable pub join_words : List Text → Text
join_words [] = []
join_words (w ∷ []) = w
join_words (w ∷ v ∷ ws) = w ++ (b' ' ∷ join_words (v ∷ ws))

-- The command in the second step of the instructions.
unfoldable pub quoted : Text → Text → Text
quoted executable config_path =
    join_words (map quote (build_nssm_install_args executable config_path none (codes "nssm.exe")))

unfoldable pub install_instructions : Text → Text → Text
install_instructions executable config_path =
    codes "Windows 서비스 등록 절차 (NSSM):\n"
    ++ (codes "  1) https://nssm.cc/ 에서 nssm.exe 다운로드 후 PATH에 두기\n"
        ++ (codes "  2) 관리자 cmd 에서 실행:\n"
            ++ (codes "     "
                ++ (quoted executable config_path
                    ++ (codes "\n"
                        ++ (codes "     nssm.exe start "
                            ++ (service_name
                                ++ (codes "\n"
                                    ++ codes
                                        "  3) 제거: nssm.exe stop ... && nssm.exe remove ... confirm\n"))))))))

-- The line `ExecStart=` of the unit.
unfoldable pub exec_start : Text → Text → Text
exec_start py posix = py ++ (codes " -m smartclassroom_agent run --config " ++ posix)

unfoldable pub render_systemd_unit : Text → Text → Option Text → Text
render_systemd_unit executable posix python_exe =
    codes "[Unit]\nDescription=SmartClassroom host agent (T11)\nAfter=network-online.target\n"
    ++ (codes "Wants=network-online.target\n\n[Service]\nType=simple\nExecStart="
        ++ (exec_start (python_of python_exe executable) posix
            ++ codes
                "\nRestart=on-failure\nRestartSec=10\nStandardOutput=journal\nStandardError=journal\n\n[Install]\nWantedBy=multi-user.target\n"))

-- What `install-service` writes, by `typer.echo`, which ends each text with a new line; `abs_config`
-- and `posix` are the two texts of the absolute path.
unfoldable pub install_service_cmd : Bool → Text → Text → Text → Text
install_service_cmd is_windows executable abs_config posix =
    if is_windows
    then install_instructions executable abs_config ++ codes "\n"
    else codes "# Linux systemd unit. /etc/systemd/system/"
      ++ (unit_name
          ++ (codes " 에 저장 후\n"
              ++ (codes "# sudo systemctl daemon-reload && sudo systemctl enable --now "
                  ++ (unit_name
                      ++ (codes "\n\n"
                          ++ (render_systemd_unit executable posix none ++ codes "\n"))))))
