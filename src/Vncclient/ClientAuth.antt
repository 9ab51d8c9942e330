-- ===== src/Vncclient/ClientAuth.antt =====
-- vncclient/client_auth.go. The DES of crypto/des is the parameter `des`: the key, and a block of
-- eight bytes.
pub mod Laws
use go_vncdriver.Common.{
  ℕ, zero, suc, ◌+◌, List, [], ◌∷◌, ◌++◌, ltb, if◌then◌else◌, length, take, drop, replicate, index,
  copy_at,
}
use go_vncdriver.Common.Exec.{Exec, Result, ok, pure, lift, bind, ◌>>=◌}
use go_vncdriver.Vncclient.Client.{ClientConn, write, on_input}
use go_vncdriver.Vncclient.Wire.{read_full}

pub data ClientAuth : Type 0 where
  none_auth : ClientAuth
  -- the bytes of the password
  password_auth : List ℕ → ClientAuth

unfoldable pub security_type : ClientAuth → ℕ
security_type none_auth = 1
security_type (password_auth password) = 2

-- The table `reverse`.
unfoldable pub reverse_table : List ℕ
reverse_table =
    0 ∷ 128 ∷ 64 ∷ 192 ∷ 32 ∷ 160 ∷ 96 ∷ 224 ∷ 16 ∷ 144 ∷ 80 ∷ 208 ∷ 48 ∷ 176 ∷ 112 ∷ 240 ∷ 8 ∷ 136
    ∷ 72 ∷ 200 ∷ 40 ∷ 168 ∷ 104 ∷ 232 ∷ 24 ∷ 152 ∷ 88 ∷ 216 ∷ 56 ∷ 184 ∷ 120 ∷ 248 ∷ 4 ∷ 132 ∷ 68
    ∷ 196 ∷ 36 ∷ 164 ∷ 100 ∷ 228 ∷ 20 ∷ 148 ∷ 84 ∷ 212 ∷ 52 ∷ 180 ∷ 116 ∷ 244 ∷ 12 ∷ 140 ∷ 76 ∷ 204
    ∷ 44 ∷ 172 ∷ 108 ∷ 236 ∷ 28 ∷ 156 ∷ 92 ∷ 220 ∷ 60 ∷ 188 ∷ 124 ∷ 252 ∷ 2 ∷ 130 ∷ 66 ∷ 194 ∷ 34
    ∷ 162 ∷ 98 ∷ 226 ∷ 18 ∷ 146 ∷ 82 ∷ 210 ∷ 50 ∷ 178 ∷ 114 ∷ 242 ∷ 10 ∷ 138 ∷ 74 ∷ 202 ∷ 42 ∷ 170
    ∷ 106 ∷ 234 ∷ 26 ∷ 154 ∷ 90 ∷ 218 ∷ 58 ∷ 186 ∷ 122 ∷ 250 ∷ 6 ∷ 134 ∷ 70 ∷ 198 ∷ 38 ∷ 166 ∷ 102
    ∷ 230 ∷ 22 ∷ 150 ∷ 86 ∷ 214 ∷ 54 ∷ 182 ∷ 118 ∷ 246 ∷ 14 ∷ 142 ∷ 78 ∷ 206 ∷ 46 ∷ 174 ∷ 110 ∷ 238
    ∷ 30 ∷ 158 ∷ 94 ∷ 222 ∷ 62 ∷ 190 ∷ 126 ∷ 254 ∷ 1 ∷ 129 ∷ 65 ∷ 193 ∷ 33 ∷ 161 ∷ 97 ∷ 225 ∷ 17
    ∷ 145 ∷ 81 ∷ 209 ∷ 49 ∷ 177 ∷ 113 ∷ 241 ∷ 9 ∷ 137 ∷ 73 ∷ 201 ∷ 41 ∷ 169 ∷ 105 ∷ 233 ∷ 25 ∷ 153
    ∷ 89 ∷ 217 ∷ 57 ∷ 185 ∷ 121 ∷ 249 ∷ 5 ∷ 133 ∷ 69 ∷ 197 ∷ 37 ∷ 165 ∷ 101 ∷ 229 ∷ 21 ∷ 149 ∷ 85
    ∷ 213 ∷ 53 ∷ 181 ∷ 117 ∷ 245 ∷ 13 ∷ 141 ∷ 77 ∷ 205 ∷ 45 ∷ 173 ∷ 109 ∷ 237 ∷ 29 ∷ 157 ∷ 93 ∷ 221
    ∷ 61 ∷ 189 ∷ 125 ∷ 253 ∷ 3 ∷ 131 ∷ 67 ∷ 195 ∷ 35 ∷ 163 ∷ 99 ∷ 227 ∷ 19 ∷ 147 ∷ 83 ∷ 211 ∷ 51
    ∷ 179 ∷ 115 ∷ 243 ∷ 11 ∷ 139 ∷ 75 ∷ 203 ∷ 43 ∷ 171 ∷ 107 ∷ 235 ∷ 27 ∷ 155 ∷ 91 ∷ 219 ∷ 59 ∷ 187
    ∷ 123 ∷ 251 ∷ 7 ∷ 135 ∷ 71 ∷ 199 ∷ 39 ∷ 167 ∷ 103 ∷ 231 ∷ 23 ∷ 151 ∷ 87 ∷ 215 ∷ 55 ∷ 183 ∷ 119
    ∷ 247 ∷ 15 ∷ 143 ∷ 79 ∷ 207 ∷ 47 ∷ 175 ∷ 111 ∷ 239 ∷ 31 ∷ 159 ∷ 95 ∷ 223 ∷ 63 ∷ 191 ∷ 127 ∷ 255
    ∷ []

unfoldable pub reverse_bits : ℕ → Result ℕ
reverse_bits b = index reverse_table b

-- `for i := 0; i < len(key); i++ { keyBytes[i] = p.reverseBits(key[i]) }`
unfoldable pub reverse_all : List ℕ → Result (List ℕ)
reverse_all [] = ok []
reverse_all (k ∷ ks) = bind (reverse_bits k) λ r. bind (reverse_all ks) λ rs. ok (r ∷ rs)

unfoldable pub key_bytes : List ℕ → Result (List ℕ)
key_bytes key =
    bind (reverse_all (if ltb 8 (length key) then take 8 key else key))
      λ ks. ok (copy_at (replicate 8 0) 0 ks)

module _ (des : List ℕ → List ℕ → List ℕ) where
  -- Two blocks, each with the same key.
  unfoldable pub encrypt : List ℕ → List ℕ → Result (List ℕ)
  encrypt key bytes =
      bind (key_bytes key) λ ks. ok (des ks (take 8 bytes) ++ des ks (take 8 (drop 8 bytes)))

  unfoldable pub password_handshake : {I : Type 0} → List ℕ → Exec (ClientConn I) (Unit {0})
  password_handshake password = do
    challenge ← on_input (read_full 16)
    crypted ← lift (encrypt password challenge)
    write crypted

  unfoldable pub auth_handshake : {I : Type 0} → ClientAuth → Exec (ClientConn I) (Unit {0})
  auth_handshake none_auth = pure tt
  auth_handshake (password_auth password) = password_handshake password
